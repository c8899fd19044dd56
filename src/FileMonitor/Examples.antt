-- ===== src/FileMonitor/Examples.antt =====
-- A monitor of the path 1 with two descriptors (BromiumCoreUtils/BRUFileMonitor.m).
use bromium_core_utils.Prelude.{
  ◌≡◌, ◌≢◌, ◌⊎◌, refl, true, false, none, some, List, [], ◌∷◌, ◌++◌, is_some,
}
use bromium_core_utils.Prelude.Outcome.{done, Returns}
use bromium_core_utils.FileMonitor.{
  FileMonitor, calls, not_supported, descriptors, evaluate_for_path, evaluate_later,
  start_with_error,
}
use bromium_core_utils.FileMonitor.Evaluation.{
  seen, reaction, evaluate_for_path-seen, start_running_hides,
}
use bromium_core_utils.FileMonitor.Descriptors.{
  Event, starts, stops, looks, history, fresh, history_balanced,
}

abbrev running : FileMonitor
running = record {
  path = 1;
  sources = some (3 ∷ (4 ∷ []));
  is_stat_valid = true;
  stat = 70;
  event_callback = some 9;
}

-- The file was replaced by one with another inode.
evaluate_for_path-seen_example :
    Returns
      (λ r.
        (seen r.0 ≡ some 71)
        × (r.0.event_callback ≡ running.event_callback)
        × (r.0.path ≡ running.path)
        × (((seen running ≢ some 71)
              × (r.0.sources ≡ some (5 ∷ []))
              × (r.1 ≡ reaction (5 ∷ []) running))
            ⊎ ((seen running ≡ some 71)
                × (r.0 ≡ running)
                × (r.1 ≡ calls running.event_callback ∷ []))))
      (evaluate_for_path (some 1) (some 71) (5 ∷ []) running)
evaluate_for_path-seen_example =
    evaluate_for_path-seen (some 1) (some 71) (5 ∷ []) (3 ∷ (4 ∷ [])) running refl

start_running_hides_example :
    Returns
      (λ r.
        (r.1 ≡ false)
        × (r.2 ≡ some not_supported)
        × (r.0.1 ≡ [])
        × (evaluate_later none (some 71) (5 ∷ []) r.0.0 ≡ done (r.0.0, [])))
      (start_with_error (some 8) (some 71) (some 71) (5 ∷ []) [] running)
start_running_hides_example =
    start_running_hides 8 (some 71) (some 71) (5 ∷ []) [] (3 ∷ (4 ∷ [])) running refl

abbrev events : List Event
events =
    starts (some 9) (some 70) (some 70) (3 ∷ (4 ∷ [])) []
    ∷ (looks (some 1) (some 71) (5 ∷ (6 ∷ [])) ∷ (stops ∷ []))

history_balanced_example :
    Returns
      (λ s.
        (s.opened ≡ s.closed ++ descriptors s.monitor.sources)
        × (is_some s.monitor.event_callback ≡ is_some s.monitor.sources)
        × ((is_some s.monitor.sources ≡ true) ⊎ (seen s.monitor ≡ none)))
      (history events (fresh 1))
history_balanced_example = history_balanced events 1
