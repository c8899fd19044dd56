-- ===== src/FileMonitor/Descriptors.antt =====
-- The descriptors that a BRUFileMonitor opens and closes over any history of calls and events
-- (BromiumCoreUtils/BRUFileMonitor.m).
use mathlib.Core.List.{append-nil, append_assoc}
use bromium_core_utils.Prelude.{
  ℕ, ◌≡◌, ◌⊎◌, inl, inr, refl, sym, ap, ◌∙◌, true, Option, none, some, List, [], ◌∷◌, subst, ◌++◌,
  map, is_some, arith,
}
use bromium_core_utils.Prelude.Outcome.{Outcome, done, ◌>>=◌, Returns, Returns->>=, Returns-weaken}
use bromium_core_utils.FileMonitor.{
  FileMonitor, opens, Sent, init, descriptors, noted, build_monitors, evaluate_for_path,
  evaluate_later, start_with_error, stop,
}
use bromium_core_utils.FileMonitor.Evaluation.{seen}
use bromium_core_utils.FileMonitor.Effects.{
  opened_by, closed_by, opened_by-opens, closed_by-opens, opened_by-all, closed_by-all, IsBalanced,
  IsKept, evaluate_for_path-IsKept,
}

-- A monitor and all descriptors that it opened and closed, in order.
pub record System : Type 0 where
  pub monitor : FileMonitor
  pub opened : List ℕ
  pub closed : List ℕ

pub data Event : Type 0 where
  starts : (callback : Option ℕ) (pre post : Option ℕ) (fds again : List ℕ) → Event
  stops : Event
  -- A block of an event source, or `resyncBlock`.
  looks : (path lstat : Option ℕ) (fds : List ℕ) → Event

abbrev pub after : System → Sent → System
after s (m, sent) = record {
  monitor = m;
  opened = s.opened ++ opened_by sent;
  closed = s.closed ++ closed_by sent;
}

pub advance : Event → System → Outcome System
advance (starts callback pre post fds again) s = do
  (sent, success, error) ← start_with_error callback pre post fds again s.monitor
  done (after s sent)
advance stops s = do (sent, success, error) ← stop s.monitor; done (after s sent)
advance (looks path lstat fds) s = do
  sent ← evaluate_later path lstat fds s.monitor
  done (after s sent)

pub history : List Event → System → Outcome System
history [] s = done s
history (e ∷ es) s = advance e s >>= history es

abbrev pub fresh : ℕ → System
fresh path = record { monitor = init path; opened = []; closed = [] }

-- A stopped monitor has no callback and has seen nothing; a running one has a callback.
abbrev pub IsTidy : FileMonitor → Type 0
IsTidy m =
    (is_some m.event_callback ≡ is_some m.sources) × ((is_some m.sources ≡ true) ⊎ (seen m ≡ none))

abbrev pub Inv : System → Type 0
Inv s = (s.opened ≡ s.closed ++ descriptors s.monitor.sources) × IsTidy s.monitor

after-Inv :
    (s : System) (r : Sent)
    → s.opened ≡ s.closed ++ descriptors s.monitor.sources
    → IsBalanced s.monitor r
    → IsTidy r.0
    → Inv (after s r)
after-Inv s r o b t = (
  ap (λ l. l ++ opened_by r.1) o
      ∙ append_assoc s.closed (descriptors s.monitor.sources) (opened_by r.1)
      ∙ ap (◌++◌ s.closed) b
      ∙ sym (append_assoc s.closed (closed_by r.1) (descriptors r.0.sources)),
  t,
)

-- What every operation keeps.
abbrev IsFine : FileMonitor → Sent → Type 0
IsFine m r = IsBalanced m r × IsTidy r.0

IsKept-IsFine :
    (old : List ℕ) (m : FileMonitor) (r : Sent)
    → m.sources ≡ some old
    → IsTidy m
    → IsKept m r
    → IsFine m r
IsKept-IsFine old m r e t k = (k.0, (ap is_some k.2 ∙ t.0 ∙ ap is_some e ∙ sym k.1, inl k.1))

evaluate_later_stopped :
    (path lstat : Option ℕ) (fds : List ℕ) (m : FileMonitor)
    → m.sources ≡ none
    → evaluate_later path lstat fds m ≡ done (m, [])
unfolding evaluate_later
evaluate_later_stopped path lstat fds m e = rw e

evaluate_later_running :
    (path lstat : Option ℕ) (fds old : List ℕ) (m : FileMonitor)
    → m.sources ≡ some old
    → evaluate_later path lstat fds m ≡ evaluate_for_path path lstat fds m
unfolding evaluate_later
evaluate_later_running path lstat fds old m e = rw e

evaluate_later-IsFine :
    (path lstat : Option ℕ) (fds : List ℕ) (o : Option (List ℕ)) (m : FileMonitor)
    → m.sources ≡ o
    → IsTidy m
    → Returns (IsFine m) (evaluate_later path lstat fds m)
evaluate_later-IsFine path lstat fds none m e t =
    subst (Returns (IsFine m)) (sym (evaluate_later_stopped path lstat fds m e))
      (append-nil (descriptors m.sources), t)
evaluate_later-IsFine path lstat fds (some old) m e t =
    subst (Returns (IsFine m)) (sym (evaluate_later_running path lstat fds old m e)) (
      Returns-weaken (IsKept m) (IsFine m) (evaluate_for_path path lstat fds m)
        (evaluate_for_path-IsKept path lstat fds old m e) λ r k. IsKept-IsFine old m r e t k)

-- What `stop:` sends, besides what it returns.
stop-IsFine :
    (o : Option (List ℕ)) (m : FileMonitor)
    → m.sources ≡ o
    → IsTidy m
    → Returns (λ r. IsFine m r.0) (stop m)
unfolding stop
stop-IsFine none m e t = ground (arith, append-nil (descriptors m.sources))
stop-IsFine (some old) m e t = ground (arith, opened_by-all old, closed_by-all old, append-nil old)

start_refused :
    (callback : ℕ) (pre post : Option ℕ) (fds again old : List ℕ) (m : FileMonitor)
    → m.sources ≡ some old
    → IsTidy m
    → Returns (λ r. IsFine m r.0) (start_with_error (some callback) pre post fds again m)
unfolding start_with_error
start_refused callback none post fds again old m e t =
    ground (arith, append-nil (descriptors m.sources))
start_refused callback (some ino) post fds again old m e t =
    ground (arith, append-nil (descriptors m.sources))

-- The monitor that `startWithError:callback:` evaluates.
abbrev begun : (callback : ℕ) (pre : Option ℕ) (fds : List ℕ) → FileMonitor → FileMonitor
begun callback pre fds m = record (noted pre m) {
  sources = some fds;
  event_callback = some callback;
}

start_begun :
    (callback : ℕ) (pre post : Option ℕ) (fds again : List ℕ) (m : FileMonitor)
    → m.sources ≡ none
    → start_with_error (some callback) pre post fds again m
      ≡ evaluate_for_path none post again (begun callback pre fds m)
        >>= (λ r. done ((r.0, map opens fds ++ r.1), true, none))
unfolding start_with_error build_monitors
start_begun callback none post fds again m e = rw e
start_begun callback (some ino) post fds again m e = rw e

begun-IsFine :
    (callback : ℕ) (pre : Option ℕ) (fds : List ℕ) (m : FileMonitor) (r : Sent)
    → m.sources ≡ none
    → IsKept (begun callback pre fds m) r
    → IsFine m (r.0, map opens fds ++ r.1)
begun-IsFine callback pre fds m r e k = (
  rw (e, opened_by-opens fds r.1, closed_by-opens fds r.1) k.0,
  (ap is_some k.2 ∙ sym k.1, inl k.1),
)

start_with_error-IsFine :
    (callback pre post : Option ℕ) (fds again : List ℕ) (o : Option (List ℕ)) (m : FileMonitor)
    → m.sources ≡ o
    → IsTidy m
    → Returns (λ r. IsFine m r.0) (start_with_error callback pre post fds again m)
start_with_error-IsFine none pre post fds again o m e t =
    unfold start_with_error in (append-nil (descriptors m.sources), t)
start_with_error-IsFine (some callback) pre post fds again none m e t =
    subst (Returns (λ r. IsFine m r.0)) (sym (start_begun callback pre post fds again m e)) (
      Returns->>= (IsKept (begun callback pre fds m)) _
        (evaluate_for_path none post again (begun callback pre fds m)) _
        (evaluate_for_path-IsKept none post again fds (begun callback pre fds m) refl)
        λ r k. begun-IsFine callback pre fds m r e k)
start_with_error-IsFine (some callback) pre post fds again (some old) m e t =
    start_refused callback pre post fds again old m e t

pub advance-Inv : (e : Event) (s : System) → Inv s → Returns Inv (advance e s)
unfolding advance
advance-Inv (starts callback pre post fds again) s v =
    Returns->>= (λ r. IsFine s.monitor r.0) Inv
      (start_with_error callback pre post fds again s.monitor) _
      (start_with_error-IsFine callback pre post fds again s.monitor.sources s.monitor refl v.1)
      λ r k. after-Inv s r.0 v.0 k.0 k.1
advance-Inv stops s v =
    Returns->>= (λ r. IsFine s.monitor r.0) Inv (stop s.monitor) _
      (stop-IsFine s.monitor.sources s.monitor refl v.1) λ r k. after-Inv s r.0 v.0 k.0 k.1
advance-Inv (looks path lstat fds) s v =
    Returns->>= (IsFine s.monitor) Inv (evaluate_later path lstat fds s.monitor) _
      (evaluate_later-IsFine path lstat fds s.monitor.sources s.monitor refl v.1)
      λ r k. after-Inv s r v.0 k.0 k.1

history-Inv : (es : List Event) (s : System) → Inv s → Returns Inv (history es s)
unfolding history
history-Inv [] s v = v
history-Inv (e ∷ es) s v =
    Returns->>= Inv Inv (advance e s) (history es) (advance-Inv e s v) λ t w. history-Inv es t w

-- Over any history of starts, stops and events on a new monitor no assertion fails, and the
-- descriptors that were opened are those that were closed, in the same order, followed by those of
-- the present sources: none is leaked, and none is closed twice. A monitor has a callback exactly
-- while it is started, and one that is not started has seen nothing.
pub history_balanced :
    (es : List Event) (path : ℕ)
    → Returns
        (λ s.
          (s.opened ≡ s.closed ++ descriptors s.monitor.sources)
          × (is_some s.monitor.event_callback ≡ is_some s.monitor.sources)
          × ((is_some s.monitor.sources ≡ true) ⊎ (seen s.monitor ≡ none)))
        (history es (fresh path))
history_balanced es path =
    Returns-weaken Inv _ (history es (fresh path))
      (history-Inv es (fresh path) (unfold init in (refl, (refl, inr refl))))
      λ s v. (v.0, v.1.0, v.1.1)
