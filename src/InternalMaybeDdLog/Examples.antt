-- ===== src/InternalMaybeDdLog/Examples.antt =====
-- A program with two loggers in DDLog (BromiumCoreUtils/BRUInternalMaybeDDLog.m).
use bromium_core_utils.Prelude.{ℕ, ◌≡◌, refl, true, some, List, [], ◌∷◌}
use bromium_core_utils.Prelude.Outcome.{done, Returns}
use bromium_core_utils.InternalMaybeDdLog.{
  Entry, Line, Runtime, is_dd_log_present_and_has_registered_loggers,
  try_dd_log_error_or_else_ns_log,
}
use bromium_core_utils.InternalMaybeDdLog.Delivery.{Delivered, try-Delivered}

record Logs : Type 0 where
  dd : List Entry
  ns : List Line

abbrev two_loggers : Runtime
two_loggers = record {
  World = Logs;
  Class = Unit;
  Method = ℕ;
  dd_log_class = λ w. some tt;
  all_loggers_method = λ c. some 2;
  call_all_loggers = λ m c w. done (some m);
  responds_to_log = λ c. true;
  call_log = λ c e w. record { dd = e ∷ w.dd; ns = w.ns };
  ns_log = λ l w. record { dd = w.dd; ns = l ∷ w.ns };
  dd_logged = λ w. w.dd;
  ns_logged = λ w. w.ns;
  dd-call_log = λ c e w h. refl;
  ns-call_log = λ c e w. refl;
  dd-ns_log = λ l w. refl;
  ns-ns_log = λ l w. refl;
}

abbrev failure : Entry
failure = record { file = 97 ∷ []; line = 3; function = 102 ∷ []; message = 109 ∷ [] }

abbrev empty : Logs
empty = record { dd = []; ns = [] }

has_two_loggers :
    is_dd_log_present_and_has_registered_loggers two_loggers (some tt) empty ≡ done true
unfolding is_dd_log_present_and_has_registered_loggers
has_two_loggers = refl

try-Delivered_example :
    Returns
      (Delivered two_loggers failure empty true)
      (try_dd_log_error_or_else_ns_log two_loggers failure empty)
try-Delivered_example = try-Delivered two_loggers failure empty true has_two_loggers
