-- ===== src/Tests/Coordinator.antt =====
-- Runs of the coordinator.
use obsidian_yandex_disk_syn.Common.{
  ◌≡◌, refl, true, false, not, ◌&&◌, Option, none, some, List, [], ◌∷◌, ◌++◌, map, ltb,
  if◌then◌else◌, is_some, nat_eq, bool_eq, option_eq, list_eq, length, filter,
}
use obsidian_yandex_disk_syn.Coordinator.{
  SyncSessionKind, full, force, realtime, RunCalls, no_call, call, run, Phase, active, settled,
  released, SyncCoordinator, idle_coordinator, Event, request, prepared, hook_returned,
  hook_rejected, started, finished, settlement_released, has_pending_work, change, take_out,
  start_in, steps,
}
use obsidian_yandex_disk_syn.Coordinator.Body.{
  Outcomes, session_body, on_enter, run_task, is_settlement, is_exit, on_exit, session_body_lem,
}
use obsidian_yandex_disk_syn.Coordinator.Changes.{bit}
use obsidian_yandex_disk_syn.Coordinator.Fifo.{
  LockReach, lock_of, running_of, served_of, waiters_of,
}
use obsidian_yandex_disk_syn.Coordinator.Counting.Open.{
  total, is_outstanding, is_open_full, is_stray,
}
use obsidian_yandex_disk_syn.Coordinator.Counting.{steps_counters}
use obsidian_yandex_disk_syn.Coordinator.Refinement.{active_id, to_list, ids, steps-FifoLock}

abbrev plain : SyncSessionKind → RunCalls
plain kind = call kind no_call true no_call no_call

-- A full session is requested first, but a realtime session is prepared before it; the second full
-- request joins the first.
abbrev two_sessions : List Event
two_sessions =
    request (plain full)
    ∷ request (plain realtime)
    ∷ request (plain full)
    ∷ prepared 2
    ∷ prepared 1
    ∷ hook_returned 2
    ∷ hook_returned 1
    ∷ started 2
    ∷ finished 2
    ∷ settlement_released 2
    ∷ started 1
    ∷ []

abbrev running_full : SyncCoordinator
running_full = record {
  preparations = [];
  queue =
      record { id = 2; kind = realtime; phase = released }
      ∷ record { id = 1; kind = full; phase = active }
      ∷ [];
  aborted = [];
  active_session = some (1, full);
  pending_full = some 1;
  sequence = 2;
  pending_work = 1;
}

two_sessions_run : steps two_sessions idle_coordinator ≡ some running_full
unfolding steps idle_coordinator change take_out start_in nat_eq option_eq
two_sessions_run = refl

-- The first session in the queue is served first.
early_start :
    steps
      (request (plain full)
        ∷ request (plain realtime)
        ∷ prepared 2
        ∷ prepared 1
        ∷ hook_returned 1
        ∷ started 1
        ∷ [])
      idle_coordinator
    ≡ none
unfolding steps idle_coordinator change take_out start_in nat_eq option_eq
early_start = refl

-- A hook that rejects settles its session at once, so the one behind it starts beside the first.
abbrev rejecting : List Event
rejecting =
    request (plain force)
    ∷ request (plain realtime)
    ∷ request (plain realtime)
    ∷ prepared 1
    ∷ hook_returned 1
    ∷ started 1
    ∷ prepared 2
    ∷ hook_rejected 2
    ∷ prepared 3
    ∷ hook_returned 3
    ∷ started 3
    ∷ []

two_active : Option SyncCoordinator → List Phase
two_active none = []
two_active (some c) = map (λ s. s.phase) c.queue

rejecting_run : two_active (steps rejecting idle_coordinator) ≡ active ∷ settled ∷ active ∷ []
unfolding steps idle_coordinator change take_out start_in nat_eq option_eq two_active
rejecting_run = refl

preparing_kinds : Option SyncCoordinator → List SyncSessionKind
preparing_kinds none = []
preparing_kinds (some c) = map (λ s. s.kind) c.preparations

-- A hook that throws after `pendingWork++` leaves work pending that no session holds.
thrown_hook :
    steps (request (call realtime no_call false no_call no_call) ∷ []) idle_coordinator
    ≡ some (record idle_coordinator { sequence = 1; pending_work = 1 })
unfolding steps idle_coordinator run
thrown_hook = refl

-- A full request that the preparation of a full session makes does not join it.
nested_full :
    preparing_kinds
      (steps (request (call full no_call true (plain full) no_call) ∷ []) idle_coordinator)
    ≡ full ∷ full ∷ []
unfolding steps idle_coordinator run preparing_kinds
nested_full = refl

steps_counters_example :
    (has_pending_work running_full ≡ ltb 0 (total is_outstanding running_full))
    × (total is_open_full running_full ≡ bit (is_some running_full.pending_full))
    × (total (is_stray running_full.pending_full) running_full ≡ 0)
steps_counters_example = steps_counters two_sessions running_full refl two_sessions_run

steps-FifoLock_example :
    LockReach (lock_of []) (lock_of running_full.queue)
    × (active_id running_full.active_session ≡ running_of running_full.queue)
    × (ids running_full.queue
        ≡ served_of running_full.queue
          ++ (to_list (running_of running_full.queue) ++ waiters_of running_full.queue))
steps-FifoLock_example = steps-FifoLock two_sessions running_full two_sessions_run refl

abbrev failing_exit : Outcomes
failing_exit = record {
  enter = true;
  task = false;
  settle = true;
  exit = false;
  active_on_error = true;
  active_after_settle = true;
  active_after_exit = true;
}

-- A session whose `this.activeSession` another session cleared settles and exits zero times.
overlapped :
    (session_body (record failing_exit {
      active_on_error = false;
      active_after_settle = false;
      active_after_exit = false;
    })).calls
    ≡ on_enter ∷ run_task ∷ []
unfolding session_body
overlapped = refl

session_body_lem_example :
    (length (filter is_settlement (session_body failing_exit).calls) ≡ 1)
    × (filter is_exit (session_body failing_exit).calls ≡ (
        if not failing_exit.enter
        then []
        else if failing_exit.exit
        then on_exit (session_body failing_exit).success ∷ []
        else if failing_exit.task && failing_exit.settle
        then on_exit true ∷ []
        else on_exit false ∷ on_exit true ∷ []))
session_body_lem_example = session_body_lem failing_exit refl
