-- ===== src/InternalMaybeDdLog/Delivery.antt =====
-- Each error message is logged once (BromiumCoreUtils/BRUInternalMaybeDDLog.m).
use bromium_core_utils.Prelude.{
  ◌≡◌, refl, ◌∙◌, ap, ◌⊎◌, inl, inr, Bool, true, false, not, ◌&&◌, Option, none, some, ◌∷◌,
  if◌then◌else◌,
}
use bromium_core_utils.Prelude.Outcome.{done, Returns}
use bromium_core_utils.InternalMaybeDdLog.{
  Entry, selector_not_found, error_line, Runtime, log_with,
  is_dd_log_present_and_has_registered_loggers, maybe_dd_log_error, try_dd_log_error_or_else_ns_log,
}

module _ (R : Runtime) where
  open R use {
    World, Class, dd_log_class, all_loggers_method, call_all_loggers, responds_to_log, call_log,
    ns_log, dd_logged, ns_logged, dd-call_log, ns-call_log, dd-ns_log, ns-ns_log,
  }

  abbrev pub responds : Option Class → Bool
  responds none = false
  responds (some c) = responds_to_log c

  -- In DDLog or with NSLog, and not in both. NSLog also tells of a selector that was not found.
  abbrev pub Delivered : Entry → (before : World) → (by_dd_log : Bool) → World → Type 0
  Delivered e w true v = (dd_logged v ≡ (e ∷ dd_logged w)) × (ns_logged v ≡ ns_logged w)
  Delivered e w false v =
      (dd_logged v ≡ dd_logged w)
      × ((ns_logged v ≡ (error_line e ∷ ns_logged w))
          ⊎ (ns_logged v ≡ (error_line e ∷ (selector_not_found ∷ ns_logged w))))

  abbrev finished : Entry → Bool × World → World
  finished e r = if not r.0 then ns_log (error_line e) r.1 else r.1

  twice-Delivered :
      (e : Entry) (w : World)
      → Delivered e w false (ns_log (error_line e) (ns_log selector_not_found w))
  twice-Delivered e w = (
    dd-ns_log (error_line e) (ns_log selector_not_found w) ∙ dd-ns_log selector_not_found w,
    inr (
        ns-ns_log (error_line e) (ns_log selector_not_found w)
        ∙ ap (λ l. error_line e ∷ l) (ns-ns_log selector_not_found w)),
  )

  log_with-Delivered :
      (o : Option Class) (e : Entry) (w : World)
      → Delivered e w (responds o) (finished e (log_with R o e w))
  log_with-Delivered none e w = twice-Delivered e w
  log_with-Delivered (some c) e w = cases (responds_to_log c) refl
    where
      cases :
          (b : Bool)
          → responds_to_log c ≡ b
          → Delivered e w b (
              finished e
                (if b then (true, call_log c e w) else (false, ns_log selector_not_found w)))
      cases true h = (dd-call_log c e w h, ns-call_log c e w)
      cases false h = twice-Delivered e w

  present-Delivered :
      (o : Option Class) (e : Entry) (w : World) (present : Bool)
      → Delivered e w
          (present && responds o)
          (finished e (if not present then (false, w) else log_with R o e w))
  present-Delivered o e w false = (dd-ns_log (error_line e) w, inl (ns-ns_log (error_line e) w))
  present-Delivered o e w true = log_with-Delivered o e w

  -- If the question whether DDLog is present with loggers gets an answer, the message is logged once:
  -- in DDLog when the answer is yes and the class responds to the selector, and with NSLog
  -- otherwise.
  pub try-Delivered :
      (e : Entry) (w : World) (present : Bool)
      → is_dd_log_present_and_has_registered_loggers R (dd_log_class w) w ≡ done present
      → Returns
          (Delivered e w (present && responds (dd_log_class w)))
          (try_dd_log_error_or_else_ns_log R e w)
  unfolding try_dd_log_error_or_else_ns_log maybe_dd_log_error
  try-Delivered e w present h = rw h (present-Delivered (dd_log_class w) e w present)
