-- ===== src/FileMonitor/Effects.antt =====
-- The descriptors that one operation of a BRUFileMonitor opens and closes
-- (BromiumCoreUtils/BRUFileMonitor.m).
use mathlib.Core.List.{append-nil}
use bromium_core_utils.Prelude.{
  ℕ, ◌≡◌, inl, inr, refl, sym, ap, ◌∙◌, Bool, true, false, Option, some, List, [], ◌∷◌, subst, ◌++◌,
  map, is_some, is_id, ◌&&◌, if◌then◌else◌,
}
use bromium_core_utils.Prelude.Outcome.{Returns, Returns-weaken}
use bromium_core_utils.FileMonitor.{
  FileMonitor, Effect, opens, cancels, calls, resyncs, Sent, descriptors, evaluate_for_path,
}
use bromium_core_utils.FileMonitor.Evaluation.{reaction, evaluate_for_path-seen}

abbrev pub opened_by : List Effect → List ℕ
opened_by [] = []
opened_by (opens fd ∷ es) = fd ∷ opened_by es
opened_by (e ∷ es) = opened_by es

abbrev pub closed_by : List Effect → List ℕ
closed_by [] = []
closed_by (cancels fd ∷ es) = fd ∷ closed_by es
closed_by (e ∷ es) = closed_by es

pub opened_by-opens :
    (fds : List ℕ) (es : List Effect) → opened_by (map opens fds ++ es) ≡ fds ++ opened_by es
opened_by-opens [] es = refl
opened_by-opens (fd ∷ fds) es = ap (◌∷◌ fd) (opened_by-opens fds es)

opened_by-cancels :
    (fds : List ℕ) (es : List Effect) → opened_by (map cancels fds ++ es) ≡ opened_by es
opened_by-cancels [] es = refl
opened_by-cancels (fd ∷ fds) es = opened_by-cancels fds es

pub closed_by-opens :
    (fds : List ℕ) (es : List Effect) → closed_by (map opens fds ++ es) ≡ closed_by es
closed_by-opens [] es = refl
closed_by-opens (fd ∷ fds) es = closed_by-opens fds es

closed_by-cancels :
    (fds : List ℕ) (es : List Effect) → closed_by (map cancels fds ++ es) ≡ fds ++ closed_by es
closed_by-cancels [] es = refl
closed_by-cancels (fd ∷ fds) es = ap (◌∷◌ fd) (closed_by-cancels fds es)

pub closed_by-all : (fds : List ℕ) → closed_by (map cancels fds) ≡ fds
closed_by-all [] = refl
closed_by-all (fd ∷ fds) = ap (◌∷◌ fd) (closed_by-all fds)

pub opened_by-all : (fds : List ℕ) → opened_by (map cancels fds) ≡ []
opened_by-all [] = refl
opened_by-all (fd ∷ fds) = opened_by-all fds

-- What was open, or is opened, is closed, or is open afterwards.
abbrev pub IsBalanced : FileMonitor → Sent → Type 0
IsBalanced m r = descriptors m.sources ++ opened_by r.1 ≡ closed_by r.1 ++ descriptors r.0.sources

reaction-IsBalanced :
    (fds : List ℕ) (m m' : FileMonitor) → m'.sources ≡ some fds → IsBalanced m (m', reaction fds m)
reaction-IsBalanced fds m m' e =
    let old = descriptors m.sources in
    let rest : List Effect = map opens fds ++ (resyncs ∷ []) in
    rw (
      e,
      opened_by-cancels old rest,
      closed_by-cancels old rest,
      opened_by-opens fds (resyncs ∷ []),
      closed_by-opens fds (resyncs ∷ []),
      append-nil fds,
      append-nil old,
    )

quiet-IsBalanced :
    (b : Bool) (c : Option ℕ) (m : FileMonitor) → IsBalanced m (m, (if b then calls c ∷ [] else []))
quiet-IsBalanced true c m = append-nil (descriptors m.sources)
quiet-IsBalanced false c m = append-nil (descriptors m.sources)

-- What an evaluation of a started monitor keeps.
abbrev pub IsKept : FileMonitor → Sent → Type 0
IsKept m r = IsBalanced m r × (is_some r.0.sources ≡ true) × (r.0.event_callback ≡ m.event_callback)

pub evaluate_for_path-IsKept :
    (path lstat : Option ℕ) (fds old : List ℕ) (m : FileMonitor)
    → m.sources ≡ some old
    → Returns (IsKept m) (evaluate_for_path path lstat fds m)
evaluate_for_path-IsKept path lstat fds old m e =
    Returns-weaken _ (IsKept m) (evaluate_for_path path lstat fds m)
      (evaluate_for_path-seen path lstat fds old m e)
      λ r k. elim k.3 [
        | inl (_, built, sent) ↦ (
          subst (λ l. IsBalanced m (r.0, l)) (sym sent) (reaction-IsBalanced fds m r.0 built),
          ap is_some built,
          k.1,
        )
        | inr (_, same, sent) ↦ (
          subst (λ l. IsBalanced m (r.0, l)) (sym sent)
              (subst
                (λ n. IsBalanced m (
                  n,
                  (if is_some lstat && is_id path m.path then calls m.event_callback ∷ [] else []),
                ))
                (sym same)
                (quiet-IsBalanced (is_some lstat && is_id path m.path) m.event_callback m)),
          ap (λ n. is_some n.sources) same ∙ ap is_some e,
          k.1,
        )
      ]
