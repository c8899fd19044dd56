-- ===== src/Task/Child/Closing.antt =====
-- The descriptors that the child of BromiumCoreUtils/BRUTask.m closes, and those that it keeps.
use bromium_core_utils.Prelude.{
  ℕ, zero, suc, ◌+◌, ◌≤◌, ◌≡◌, ◌≢◌, ◌⊎◌, refl, ◌∙◌, ap, sym, subst, Bool, true, false, not, ◌&&◌,
  Option, none, some, ltb, leb, ◌==◌, if◌then◌else◌, arith,
}
use bromium_core_utils.Task.Child.{Posix, close_high, close_from}

pick :
    {A : Type 0} (P : Option A → Type 0) (b b' : Bool) (e : Option A)
    → P none
    → P e
    → P (if b then (if b' then none else e) else e)
pick P true true e h0 h = h0
pick P true false e h0 h = h
pick P false b' e h0 h = h

module _ (S : Posix) where
  open S use {Process, File, entry, close, entry-close, getdtablesize}

  abbrev is_closed_round : (rounds i keep c : ℕ) → Bool
  is_closed_round rounds i keep c = leb i c && (ltb c (i + rounds) && not (c == keep))

  next_round :
      {A : Type 0} (rounds i keep c : ℕ) (old : Option A)
      → (if is_closed_round rounds (suc i) keep c
          then none
          else (if not (i == keep) then (if c == i then none else old) else old))
        ≡ (if is_closed_round (suc rounds) i keep c then none else old)
  next_round rounds i keep c old = ground arith

  pub entry-if :
      (c : ℕ) (b : Bool) (p q : Process)
      → entry c (if b then p else q) ≡ (if b then entry c p else entry c q)
  entry-if c true p q = refl
  entry-if c false p q = refl

  entry-close_unless :
      (c i keep : ℕ) (p : Process)
      → entry c (if not (i == keep) then (close i p).1 else p)
        ≡ (if not (i == keep) then (if c == i then none else entry c p) else entry c p)
  entry-close_unless c i keep p =
      entry-if c (not (i == keep)) (close i p).1 p
      ∙ ap (λ e. if not (i == keep) then e else entry c p) (entry-close c i p)

  -- The loop closes what lies in its range, except the descriptor to keep.
  pub entry-close_from :
      (rounds i keep c : ℕ) (p : Process)
      → entry c (close_from S rounds i keep p)
        ≡ (if is_closed_round rounds i keep c then none else entry c p)
  unfolding close_from
  entry-close_from zero i keep c p = ground arith
  entry-close_from (suc rounds) i keep c p =
      entry-close_from rounds (suc i) keep c (if not (i == keep) then (close i p).1 else p)
      ∙ ap (λ e. if is_closed_round rounds (suc i) keep c then none else e)
          (entry-close_unless c i keep p)
      ∙ next_round rounds i keep c (entry c p)

  untouched :
      {A : Type 0} (c fd : ℕ) (old : Option A)
      → (c ≤ 2) ⊎ (some fd ≢ some c)
      → (if ltb 2 fd then (if c == fd then none else old) else old) ≡ old
  untouched c fd old h = ground arith

  pub entry-close_high :
      (c : ℕ) (fd : Option ℕ) (p : Process)
      → (c ≤ 2) ⊎ (fd ≢ some c)
      → entry c (close_high S fd p) ≡ entry c p
  unfolding close_high
  entry-close_high c none p h = refl
  entry-close_high c (some fd) p h =
      entry-if c (ltb 2 fd) (close fd p).1 p
      ∙ ap (λ e. if ltb 2 fd then e else entry c p) (entry-close c fd p)
      ∙ untouched c fd (entry c p) h

  -- What holds of a closed descriptor and of the entry still holds behind a close.
  pub close_high-keeps :
      (P : Option (File × Bool) → Type 0) (c : ℕ) (fd : Option ℕ) (p : Process)
      → P none
      → P (entry c p)
      → P (entry c (close_high S fd p))
  unfolding close_high
  close_high-keeps P c none p h0 h = h
  close_high-keeps P c (some fd) p h0 h =
      subst P
        (sym (
          entry-if c (ltb 2 fd) (close fd p).1 p
          ∙ ap (λ e. if ltb 2 fd then e else entry c p) (entry-close c fd p)))
        (pick P (ltb 2 fd) (c == fd) (entry c p) h0 h)
