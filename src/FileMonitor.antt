-- ===== src/FileMonitor.antt =====
-- BromiumCoreUtils/BRUFileMonitor.m: a monitor that calls a block when the file at its path is
-- created, deleted, replaced or changed. The fields are used on the serial queue `syncQueue`. Of
-- `struct stat` the class uses the inode, so `lstat` gives an inode or nothing; the descriptors that
-- open(2) gives for the parts of the path are an argument. Paths and callbacks are named by numbers.
pub mod Evaluation
pub mod Effects
pub mod Descriptors
mod Examples
use bromium_core_utils.Prelude.{
  ℕ, Bool, true, false, not, Option, none, some, List, [], ◌∷◌, ◌++◌, map, ◌==◌, is_some, is_none,
  is_id, if◌then◌else◌,
}
use bromium_core_utils.Prelude.Outcome.{Outcome, done, ◌>>=◌, ◌>>◌, bru_assert}

pub record FileMonitor : Type 0 where
  pub path : ℕ
  -- The descriptors of the sources in `dispatch_source_list`.
  pub sources : Option (List ℕ)
  pub is_stat_valid : Bool
  pub stat : ℕ
  pub event_callback : Option ℕ

-- What the blocks on `syncQueue` do elsewhere.
pub data Effect : Type 0 where
  opens : ℕ → Effect
  -- `dispatch_source_cancel`, whose handler closes the descriptor.
  cancels : ℕ → Effect
  -- The block of `invokeCallback` on the completion queue, with the callback that it captured.
  calls : Option ℕ → Effect
  -- The block `resyncBlock` on `syncQueue`.
  resyncs : Effect

-- `nil_callback` is that of `BRUParameterNotNil`; the other one is ENOTSUP.
pub data Error : Type 0 where
  nil_callback not_supported : Error

abbrev pub Sent : Type 0
Sent = FileMonitor × List Effect

-- `initWithPath:completionQueue:`; the runtime zeroes the other fields.
unfoldable pub init : ℕ → FileMonitor
init path = record {
  path = path;
  sources = none;
  is_stat_valid = false;
  stat = 0;
  event_callback = none;
}

unfoldable pub build_monitors : (fds : List ℕ) → FileMonitor → Outcome Sent
build_monitors fds m = do
  bru_assert (is_none m.sources)
  done (record m { sources = some fds }, map opens fds)

abbrev pub descriptors : Option (List ℕ) → List ℕ
descriptors none = []
descriptors (some fds) = fds

unfoldable pub destroy_monitors : FileMonitor → Outcome Sent
destroy_monitors m = do
  bru_assert (is_some m.sources)
  done (record m { sources = none }, map cancels (descriptors m.sources))

abbrev pub invoke_callback : FileMonitor → Effect
invoke_callback m = calls m.event_callback

-- `rebuildBlock` of `evaluateForPath:`.
unfoldable pub rebuild : (fds : List ℕ) → FileMonitor → Outcome Sent
unfolding build_monitors destroy_monitors
rebuild fds m = do
  (m', destroyed) ← destroy_monitors m
  (m'', built) ← build_monitors fds m'
  done (m'', destroyed ++ (built ++ (resyncs ∷ [])))

-- The callback is invoked, and the monitors are built again.
abbrev changed : Effect → Outcome Sent → Outcome Sent
changed invoked rebuilt = do (m, sent) ← rebuilt; done (m, invoked ∷ sent)

-- `evaluateForPath:`, with what `lstat` gives.
unfoldable pub evaluate_for_path :
    (path : Option ℕ) (lstat : Option ℕ) (fds : List ℕ) → FileMonitor → Outcome Sent
unfolding rebuild
evaluate_for_path path none fds m =
    if m.is_stat_valid
    then changed (invoke_callback m) (rebuild fds (record m { is_stat_valid = false }))
    else done (m, [])
evaluate_for_path path (some post) fds m =
    if m.is_stat_valid
    then (if not (post == m.stat)
        then changed (invoke_callback m) (rebuild fds (record m { stat = post }))
        else if is_id path m.path
        then done (m, invoke_callback m ∷ [])
        else done (m, []))
    else changed (invoke_callback m) (rebuild fds (record m { is_stat_valid = true; stat = post }))

-- The first lines of the block of `startWithError:callback:`.
abbrev pub noted : Option ℕ → FileMonitor → FileMonitor
noted none m = record m { is_stat_valid = false }
noted (some pre) m = record m { is_stat_valid = true; stat = pre }

-- The rest of it, on a monitor that is not started.
abbrev started :
    (callback : ℕ) (post : Option ℕ) (fds again : List ℕ)
    → FileMonitor
    → Outcome (Sent × Bool × Option Error)
started callback post fds again m = do
  (m', built) ← build_monitors fds (record m { event_callback = some callback })
  (m'', sent) ← evaluate_for_path none post again m'
  done ((m'', built ++ sent), true, none)

-- `startWithError:callback:`: `pre` and `post` are what its two calls of `lstat` give, and `again`
-- the descriptors of a second build. The last parts are the result and the error.
unfoldable pub start_with_error :
    (callback : Option ℕ) (pre post : Option ℕ) (fds again : List ℕ)
    → FileMonitor
    → Outcome (Sent × Bool × Option Error)
unfolding build_monitors evaluate_for_path
start_with_error none pre post fds again m = done ((m, []), false, some nil_callback)
start_with_error (some callback) pre post fds again m =
    if is_some (noted pre m).sources
    then done ((noted pre m, []), false, some not_supported)
    else started callback post fds again (noted pre m)

-- `stop:`.
unfoldable pub stop : FileMonitor → Outcome (Sent × Bool × Option Error)
unfolding destroy_monitors
stop m = if is_none m.sources then done ((m, []), false, some not_supported) else (do
  (m', sent) ← destroy_monitors m
  done ((record m' { event_callback = none; is_stat_valid = false }, sent), true, none))

unfoldable pub is_monitoring : FileMonitor → Bool
is_monitoring m = is_some m.sources

-- The blocks on `syncQueue` of an event at `path` and of `resyncBlock` (`none`).
unfoldable pub evaluate_later :
    (path : Option ℕ) (lstat : Option ℕ) (fds : List ℕ) → FileMonitor → Outcome Sent
unfolding evaluate_for_path
evaluate_later path lstat fds m =
    if is_none m.sources then done (m, []) else evaluate_for_path path lstat fds m

unfoldable pub dealloc : FileMonitor → Outcome (Unit {0})
dealloc m = bru_assert (is_none m.sources)
