-- ===== src/FileMonitor/Evaluation.antt =====
-- What a BRUFileMonitor reports (BromiumCoreUtils/BRUFileMonitor.m, `evaluateForPath:`).
use bromium_core_utils.Prelude.{
  ℕ, ◌≡◌, ◌≢◌, ◌⊎◌, false, ◌&&◌, Option, none, some, List, [], ◌∷◌, ◌++◌, map, is_some, is_id,
  if◌then◌else◌, arith,
}
use bromium_core_utils.Prelude.Outcome.{done, Returns}
use bromium_core_utils.FileMonitor.{
  FileMonitor, Effect, opens, cancels, calls, resyncs, not_supported, evaluate_for_path,
  evaluate_later, start_with_error, descriptors,
}

-- What the monitor takes to be at its path: the inode of the file, or nothing.
abbrev pub seen : FileMonitor → Option ℕ
seen m = if m.is_stat_valid then some m.stat else none

-- What the monitor sends when what it has seen is no longer so: its callback, once; the old
-- descriptors are closed, new ones are opened, and it looks again.
abbrev pub reaction : (fds : List ℕ) → FileMonitor → List Effect
reaction fds m =
    calls m.event_callback
    ∷ (map cancels (descriptors m.sources) ++ (map opens fds ++ (resyncs ∷ [])))

-- An evaluation of a monitor that is started does not fail an assertion, and has one of three
-- outcomes. When what `lstat` gives is not what the monitor has seen (the file was created,
-- deleted, or replaced by another), the callback is invoked once, the monitors are built again, and
-- another look is queued. When it is the same and a file, and the event was at the monitor's own
-- path, the callback is invoked once and the monitor stays as it is. Otherwise nothing happens.
-- In each, the monitor has afterwards seen what `lstat` gave, and keeps its callback and its path.
pub evaluate_for_path-seen :
    (path lstat : Option ℕ) (fds old : List ℕ) (m : FileMonitor)
    → m.sources ≡ some old
    → Returns
        (λ r.
          (seen r.0 ≡ lstat)
          × (r.0.event_callback ≡ m.event_callback)
          × (r.0.path ≡ m.path)
          × (((seen m ≢ lstat) × (r.0.sources ≡ some fds) × (r.1 ≡ reaction fds m))
              ⊎ ((seen m ≡ lstat)
                  × (r.0 ≡ m)
                  × (r.1 ≡ (
                      if is_some lstat && is_id path m.path
                      then calls m.event_callback ∷ []
                      else [])))))
        (evaluate_for_path path lstat fds m)
unfolding evaluate_for_path
evaluate_for_path-seen path none fds old m s = ground arith
evaluate_for_path-seen path (some ino) fds old m s = ground arith

-- A start of a monitor that is started already is refused with ENOTSUP, but it records what is at
-- the path now: if the file has changed since the monitor looked last, the evaluation that follows
-- finds no change, and the callback is not invoked.
pub start_running_hides :
    (callback : ℕ) (now post : Option ℕ) (fds again old : List ℕ) (m : FileMonitor)
    → m.sources ≡ some old
    → Returns
        (λ r.
          (r.1 ≡ false)
          × (r.2 ≡ some not_supported)
          × (r.0.1 ≡ [])
          × (evaluate_later none now fds r.0.0 ≡ done (r.0.0, [])))
        (start_with_error (some callback) now post fds again m)
unfolding start_with_error evaluate_later
start_running_hides callback none post fds again old m s = ground arith
start_running_hides callback (some now) post fds again old m s = ground arith
