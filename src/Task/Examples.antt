-- ===== src/Task/Examples.antt =====
-- A task whose child runs and exits while a thread waits (BromiumCoreUtils/BRUTask.m).
use bromium_core_utils.Prelude.{
  ◌+◌, ◌≡◌, ◌⊎◌, refl, true, false, none, some, [], ◌∷◌, if◌then◌else◌,
}
use bromium_core_utils.Prelude.Outcome.{Returns}
use bromium_core_utils.Task.{
  Task, Responses, piped, forked, wrote, interrupted, end_of_file, nil_stream, pipe_stream, exited,
  watching, no_source, init, launch, child_exited, begin_wait, end_wait,
}
use bromium_core_utils.Task.Launching.{Ends, launch-Ends}
use bromium_core_utils.Task.Arguments.{argv_of, envp_of, strings_of}
use bromium_core_utils.Task.Arguments.RoundTrip.{AllFreed, launch_strings}
use bromium_core_utils.Task.Lifecycle.{
  System, Reach, new, later, launches, waits, is_watching, at_rest, stopped, one_if, is_past_stop,
  exit_handled_once,
}

abbrev calls : Responses
calls = record {
  child2parent = piped 3 4;
  parent2child = piped 5 6;
  fork = forked 100;
  source_created = true;
  write = wrote;
  reads = interrupted ∷ (end_of_file ∷ []);
}

abbrev idle : Task
idle = record {
  was_launched = false;
  has_been_waited_on = false;
  running = false;
  process_identifier = 0;
  termination_reason = none;
  termination_status = 0;
  source = no_source;
  semaphore = 0;
}

launch-Ends_example :
    Returns (Ends calls) (launch (pipe_stream 7 8) nil_stream nil_stream calls idle)
launch-Ends_example =
    launch-Ends (pipe_stream 7 8) nil_stream nil_stream calls idle refl refl refl refl

abbrev started : System
started = record {
  task = record idle {
    was_launched = true;
    running = true;
    process_identifier = 100;
    source = watching;
  };
  stage = at_rest;
  began = true;
  waiting = false;
  woken = 0;
  handled = 0;
}

abbrev waited : System
waited = record started { task = record started.task { has_been_waited_on = true }; waiting = true }

started-Reach : Reach started
unfolding launch init
started-Reach = later new (
    launches nil_stream nil_stream nil_stream calls
      (record {
        task = started.task;
        failure = none;
        opened = 3 ∷ (4 ∷ (5 ∷ (6 ∷ [])));
        closed = 5 ∷ (4 ∷ (6 ∷ (3 ∷ [])));
        streams_closed = [];
      })
      refl)

waited-Reach : Reach waited
unfolding begin_wait
waited-Reach = later started-Reach (waits (waited.task, true) refl)

exit_handled_once_example :
    (one_if (is_past_stop waited.stage) + waited.handled
      ≡ (if waited.began then (if waited.task.running then 0 else 1) else 0))
    × ((waited.waiting ≡ false)
        ⊎ ((waited.task.running ≡ true)
            ⊎ ((waited.stage ≡ stopped)
                ⊎ (end_wait waited.task ≡ some (record waited.task { semaphore = 0 })))))
    × ((is_watching waited.task.source ≡ false)
        ⊎ Returns
            (λ r. (r.0.running ≡ false) × (r.0.termination_status ≡ 2) × (r.1 ≡ true))
            (child_exited (exited 2) waited.task))
exit_handled_once_example = exit_handled_once 2 waited-Reach

launch_strings_example :
    (strings_of (argv_of (λ s. s) 50 (λ i s. some i) (47 ∷ []) ((97 ∷ []) ∷ []))
      ≡ some (some ((47 ∷ []) ∷ ((97 ∷ []) ∷ []))))
    × AllFreed (argv_of (λ s. s) 50 (λ i s. some i) (47 ∷ []) ((97 ∷ []) ∷ []))
    × (strings_of (envp_of (λ s. s) 50 (λ i s. some i) (some ((97 ∷ [], 98 ∷ []) ∷ [])))
        ≡ some (some ((97 ∷ (61 ∷ (98 ∷ []))) ∷ [])))
    × AllFreed (envp_of (λ s. s) 50 (λ i s. some i) (some ((97 ∷ [], 98 ∷ []) ∷ [])))
launch_strings_example =
    launch_strings (λ s. s) 50 (λ i s. some i) (λ i s. refl) (47 ∷ []) ((97 ∷ []) ∷ [])
      (some ((97 ∷ [], 98 ∷ []) ∷ []))
