-- ===== src/InternalMaybeDdLog.antt =====
-- BromiumCoreUtils/BRUInternalMaybeDDLog.m: an error message goes to DDLog if a program has it and has
-- registered loggers, and to NSLog otherwise. `Runtime` is the Objective-C runtime with the class
-- DDLog, if there is one, and NSLog; a world has what both have logged.
pub mod Delivery
mod Examples
use bromium_core_utils.Prelude.{
  ℕ, ◌≡◌, Bool, true, false, not, ◌&&◌, Option, none, some, List, [], ◌∷◌, ◌++◌, ltb, if◌then◌else◌,
}
use bromium_core_utils.Prelude.Outcome.{Outcome, done, ◌>>=◌}

-- An error message: `file`, `line`, `function` and `message`, as the lists of their units.
pub record Entry : Type 0 where
  pub file : List ℕ
  pub line : ℕ
  pub function : List ℕ
  pub message : List ℕ

-- What is written with NSLog.
pub data Line : Type 0 where
  selector_not_found : Line
  error_line : Entry → Line

pub record Runtime : Type 1 where
  pub World : Type 0
  pub Class : Type 0
  pub Method : Type 0
  -- NSClassFromString(@"DDLog").
  pub dd_log_class : World → Option Class
  -- `methodForSelector:` for `allLoggers`; `none` is NULL.
  pub all_loggers_method : Class → Option Method
  -- The call of the method. It throws an exception for a selector that is not implemented.
  pub call_all_loggers : Method → Class → World → Outcome (Option ℕ)
  -- `respondsToSelector:` for `log:level:flag:context:file:function:line:tag:format:`, and its call.
  pub responds_to_log : Class → Bool
  pub call_log : Class → Entry → World → World
  pub ns_log : Line → World → World
  pub dd_logged : World → List Entry
  pub ns_logged : World → List Line
  pub dd-call_log :
      (c : Class) (e : Entry) (w : World)
      → responds_to_log c ≡ true
      → dd_logged (call_log c e w) ≡ (e ∷ dd_logged w)
  pub ns-call_log : (c : Class) (e : Entry) (w : World) → ns_logged (call_log c e w) ≡ ns_logged w
  pub dd-ns_log : (l : Line) (w : World) → dd_logged (ns_log l w) ≡ dd_logged w
  pub ns-ns_log : (l : Line) (w : World) → ns_logged (ns_log l w) ≡ (l ∷ ns_logged w)

module _ (R : Runtime) where
  open R use {
    World, Class, Method, dd_log_class, all_loggers_method, call_all_loggers, responds_to_log,
    call_log, ns_log,
  }

  abbrev pub has_loggers : Option ℕ → Bool
  has_loggers none = false
  has_loggers (some count) = ltb 0 count

  abbrev present_with : Option Method → Class → World → Outcome Bool
  present_with none c w = done false
  present_with (some imp) c w = do loggers ← call_all_loggers imp c w; done (has_loggers loggers)

  -- `isDDLogPresentAndHasRegisteredLoggers`. A message to nil gives NULL.
  unfoldable pub is_dd_log_present_and_has_registered_loggers : Option Class → World → Outcome Bool
  is_dd_log_present_and_has_registered_loggers none w = done false
  is_dd_log_present_and_has_registered_loggers (some c) w = present_with (all_loggers_method c) c w

  -- The call of DDLog, which a class that is not there does not respond to.
  abbrev pub log_with : Option Class → Entry → World → Bool × World
  log_with none e w = (false, ns_log selector_not_found w)
  log_with (some c) e w =
      if responds_to_log c then (true, call_log c e w) else (false, ns_log selector_not_found w)

  -- `maybeDDLogErrorWithFile:line:function:message:`.
  unfoldable pub maybe_dd_log_error : Entry → World → Outcome (Bool × World)
  unfolding is_dd_log_present_and_has_registered_loggers
  maybe_dd_log_error e w = do
    present ← is_dd_log_present_and_has_registered_loggers (dd_log_class w) w
    done (if not present then (false, w) else log_with (dd_log_class w) e w)

  -- `tryDDLogErrorOrElseNSLogWithFile:line:function:message:`.
  unfoldable pub try_dd_log_error_or_else_ns_log : Entry → World → Outcome World
  unfolding maybe_dd_log_error
  try_dd_log_error_or_else_ns_log e w = do
    (logged, w') ← maybe_dd_log_error e w
    done (if not logged then ns_log (error_line e) w' else w')
