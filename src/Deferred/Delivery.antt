-- ===== src/Deferred/Delivery.antt =====
-- When and how often a BRUDeferred calls the blocks given to it (BromiumCoreUtils/BRUDeferred.m).
use mathlib.Core.List.{append-nil, append_assoc}
use bromium_core_utils.Prelude.{
  ℕ, ◌+◌, ◌≡◌, refl, sym, ap, ◌∙◌, subst, ◌⊎◌, Option, List, [], ◌∷◌, ◌++◌, All, arith,
}
use bromium_core_utils.Prelude.Outcome.{done, fatal}
use bromium_core_utils.Deferred.{
  PromiseState, pending, resolved, Deferred, init, resolve, then_do, complete,
}
use bromium_core_utils.Deferred.System.{
  System, count, count-append, count_self, calls, sent, Step, resolves, thens, completes, Reach,
  start, later,
}

module _ {A : Type 0} where
  -- Before the promise is resolved nothing has left it; after that nothing waits in it.
  abbrev IsSettled : PromiseState → System A → Type 0
  IsSettled pending s = (s.dispatched ≡ []) × (s.completions ≡ []) × (s.called ≡ [])
  IsSettled resolved s = s.deferred.then_blocks ≡ []

  pub record Inv (s : System A) : Type 0 where
    pub settled : IsSettled s.deferred.state s
    pub ordered : s.registered ≡ s.dispatched ++ s.deferred.then_blocks
    pub once : (b : ℕ) → count b s.dispatched ≡ count b s.completions + calls b s.called
    pub same : All (λ c. c.1 ≡ s.deferred.value) s.called

  -- The blocks that waited leave together.
  abbrev pub resolution : Option A → Deferred A → Deferred A × List ℕ
  resolution v d = (record { state = resolved; value = v; then_blocks = [] }, d.then_blocks)

  resolve-resolution :
      (v : Option A) (d : Deferred A) (r : Deferred A × List ℕ)
      → resolve v d ≡ done r
      → (d.state ≡ pending) × (r ≡ resolution v d)
  unfolding resolve
  resolve-resolution v d r e = ground arith

  -- A new content of the promise, with blocks that leave it.
  sent-Inv :
      (d : Deferred A) (blocks registered : List ℕ) (s : System A)
      → IsSettled d.state (sent (d, blocks) (record s { registered = registered }))
      → registered ≡ (s.dispatched ++ blocks) ++ d.then_blocks
      → All (λ c. c.1 ≡ d.value) s.called
      → Inv s
      → Inv (sent (d, blocks) (record s { registered = registered }))
  sent-Inv d blocks registered s t o v i = record {
    settled = t;
    ordered = o;
    once = λ b.
        omega (
          arith,
          i.once b,
          count-append b s.dispatched blocks,
          count-append b s.completions blocks,
        );
    same = v;
  }

  resolution-Inv :
      (v : Option A) (s : System A)
      → s.deferred.state ≡ pending
      → Inv s
      → Inv (sent (resolution v s.deferred) s)
  resolution-Inv v s e i =
      let q = subst (λ p. IsSettled p s) e i.settled in
      let d = resolution v s.deferred in
      sent-Inv d.0 d.1 s.registered s refl (i.ordered ∙ sym (append-nil _))
        (subst (All (λ c. c.1 ≡ v)) (sym q.2) tt) i

  then_do_pending :
      (b : ℕ) (d : Deferred A)
      → d.state ≡ pending
      → then_do b d ≡ (record d { then_blocks = d.then_blocks ++ (b ∷ []) }, [])
  unfolding then_do
  then_do_pending b d e = ground arith

  then_do_resolved :
      (b : ℕ) (d : Deferred A)
      → d.state ≡ resolved
      → then_do b d ≡ (record d { then_blocks = [] }, d.then_blocks ++ (b ∷ []))
  unfolding then_do
  then_do_resolved b d e = ground arith

  abbrev ThensInv : ℕ → System A → Deferred A × List ℕ → Type 0
  ThensInv b s r = Inv (sent r (record s { registered = s.registered ++ (b ∷ []) }))

  thens-Inv :
      (p : PromiseState) (b : ℕ) (s : System A)
      → s.deferred.state ≡ p
      → Inv s
      → ThensInv b s (then_do b s.deferred)
  thens-Inv pending b s e i =
      let (f, g, h) = subst (λ p. IsSettled p s) e i.settled in
      let d = s.deferred in
      subst (ThensInv b s) (sym (then_do_pending b d e)) (
        sent-Inv (record d { then_blocks = d.then_blocks ++ (b ∷ []) }) []
          (s.registered ++ (b ∷ [])) s
          (subst
            (λ p. IsSettled p (
              sent (record d { then_blocks = d.then_blocks ++ (b ∷ []) }, [])
                (record s { registered = s.registered ++ (b ∷ []) })))
            (sym e) (append-nil _ ∙ f, append-nil _ ∙ g, h))
          (ap (λ l. l ++ (b ∷ [])) i.ordered
            ∙ append_assoc s.dispatched d.then_blocks (b ∷ [])
            ∙ ap (λ l. l ++ (d.then_blocks ++ (b ∷ []))) (sym (append-nil s.dispatched)))
          i.same i)
  thens-Inv resolved b s e i =
      let d = s.deferred in
      subst (ThensInv b s) (sym (then_do_resolved b d e)) (
        sent-Inv (record d { then_blocks = [] }) (d.then_blocks ++ (b ∷ []))
          (s.registered ++ (b ∷ [])) s
          (subst
            (λ p. IsSettled p (
              sent (record d { then_blocks = [] }, d.then_blocks ++ (b ∷ []))
                (record s { registered = s.registered ++ (b ∷ []) })))
            (sym e) refl)
          (ap (λ l. l ++ (b ∷ [])) i.ordered
            ∙ append_assoc s.dispatched d.then_blocks (b ∷ [])
            ∙ sym (append-nil _))
          i.same i)

  -- A completion runs after the promise was resolved.
  completes-IsSettled :
      (p : PromiseState) (xs ys : List ℕ) (b : ℕ) (s t : System A)
      → s.completions ≡ xs ++ (b ∷ ys)
      → t.deferred ≡ s.deferred
      → IsSettled p s
      → IsSettled p t
  completes-IsSettled resolved xs ys b s t e d h = ap (λ x. x.then_blocks) d ∙ h
  completes-IsSettled pending xs ys b s t e d h =
      absurd
        (omega (arith, ap (count b) (sym h.1 ∙ e), count-append b xs (b ∷ ys), count_self b ys))

  completes-Inv :
      (xs ys : List ℕ) (b : ℕ) (s : System A)
      → s.completions ≡ xs ++ (b ∷ ys)
      → Inv s
      → Inv (record s { completions = xs ++ ys; called = complete b s.deferred ∷ s.called })
  unfolding complete
  completes-Inv xs ys b s e i = record {
    settled = completes-IsSettled s.deferred.state xs ys b s _ e refl i.settled;
    ordered = i.ordered;
    once = λ c.
        ground (arith, i.once c, ap (count c) e, count-append c xs (b ∷ ys), count-append c xs ys);
    same = (refl, i.same);
  }

  Step-Inv : {s t : System A} → Step s t → Inv s → Inv t
  Step-Inv {s} (resolves v r e) i =
      let (p, q) = resolve-resolution v s.deferred r e in
      subst (λ x. Inv (sent x s)) (sym q) (resolution-Inv v s p i)
  Step-Inv {s} (thens b) i = thens-Inv s.deferred.state b s refl i
  Step-Inv {s} (completes xs ys b e) i = completes-Inv xs ys b s e i

  Reach-Inv : {s : System A} → Reach s → Inv s
  unfolding init
  Reach-Inv start = record {
    settled = (refl, refl, refl);
    ordered = refl;
    once = λ b. omega arith;
    same = tt;
  }
  Reach-Inv (later r st) = Step-Inv st (Reach-Inv r)

  -- In every state that a promise reaches, whatever the order of `resolve:`, `then:` and of the
  -- blocks on the completion queue: a block has been called as often as it was given to `then:`,
  -- less the times that it is still queued or still waits in the promise; the blocks come to the
  -- completion queue in the order of the calls of `then:`; and every call had the value of the
  -- promise.
  pub then_called_once :
      {s : System A} (b : ℕ)
      → Reach s
      → (count b s.registered
          ≡ calls b s.called + count b s.completions + count b s.deferred.then_blocks)
        × (s.registered ≡ s.dispatched ++ s.deferred.then_blocks)
        × All (λ c. c.1 ≡ s.deferred.value) s.called
  then_called_once {s} b r =
      let i = Reach-Inv r in
      (
        omega (
          arith,
          i.once b,
          ap (count b) i.ordered,
          count-append b s.dispatched s.deferred.then_blocks,
        ),
        i.ordered,
        i.same,
      )

  -- In every state that a promise reaches: once it is resolved no block waits in it, and before
  -- that no block has been called or queued; and `resolve:` fails its assertion exactly when the
  -- promise has been resolved before.
  pub resolve_exactly_once :
      {s : System A} (v : Option A)
      → Reach s
      → ((s.deferred.state ≡ pending)
          × (s.called ≡ [])
          × (s.completions ≡ [])
          × (resolve v s.deferred ≡ done (resolution v s.deferred)))
        ⊎ ((s.deferred.state ≡ resolved)
            × (s.deferred.then_blocks ≡ [])
            × (resolve v s.deferred ≡ fatal))
  unfolding resolve
  resolve_exactly_once {s} v r = ground (arith, (Reach-Inv r).settled)
