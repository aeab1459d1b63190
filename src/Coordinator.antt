-- ===== src/Coordinator.antt =====
-- src/sync/coordinator.ts: sessions that are run one at a time. A promise chain is a list of
-- sessions in the order in which they were enqueued: `this.tail` is the settlement of the last
-- one, so a session may start once the one before it is settled. Each event is one step of the
-- event loop; an event that is not enabled is `none`.
pub mod Body
pub mod Changes
pub mod Fifo
pub mod Refinement
pub mod Counting
use obsidian_yandex_disk_syn.Common.{
  ℕ, zero, suc, ◌+◌, ◌-◌, ◌≤◌, ◌<◌, ◌≡◌, refl, sym, ap, ◌∙◌, subst, ◌≢◌, ◌↔◌, ◌⊎◌, inl, inr, Bool,
  true, false, not, ◌&&◌, ◌||◌, Option, none, some, List, [], ◌∷◌, ◌++◌, map, arith, ltb, leb,
  if◌then◌else◌, get_or, truthy, truthy_list, is_some, ◌==◌, ◌!=◌, nat_eq, bool_eq, option_eq,
  list_eq, Bool-cases, Option-cases, length, length-append, any, all, filter, find, last, All, Some,
  has, eq_of_test, test_self, Eq, max, min,
}
use obsidian_yandex_disk_syn.Common.Text.{
  Text, codes, strip_prefix, starts_with, strip_prefix-append, append-strip_prefix, trim_slashes,
  split_slash, join_slash,
}
use obsidian_yandex_disk_syn.Common.Dict.{
  Dict, lookup, insert, erase, NodupKeys, lookup-insert, lookup-insert_self, lookup-erase,
}

pub data SyncSessionKind : Type 0 where
  full force realtime maintenance : SyncSessionKind

abbrev pub is_full : SyncSessionKind → Bool
is_full full = true
is_full _ = false

-- Where a session stands: in `prepare`, in the queue (`hooked` once `onQueued` has returned), in
-- its body, with `run` settled, with `pendingWork` given back, with `pendingFull` given back.
pub data Phase : Type 0 where
  preparing : Phase
  waiting : (hooked : Bool) → Phase
  active settled released closed : Phase

pub record Session : Type 0 where
  pub id : ℕ
  pub kind : SyncSessionKind
  pub phase : Phase

-- The fields of `SyncCoordinator`; `aborted` holds the sessions whose preparation failed.
pub record SyncCoordinator : Type 0 where
  pub preparations : List Session
  pub queue : List Session
  pub aborted : List Session
  pub active_session : Option (ℕ × SyncSessionKind)
  pub pending_full : Option ℕ
  pub sequence : ℕ
  pub pending_work : ℕ

unfoldable pub idle_coordinator : SyncCoordinator
idle_coordinator = record {
  preparations = [];
  queue = [];
  aborted = [];
  active_session = none;
  pending_full = none;
  sequence = 0;
  pending_work = 0;
}

-- The calls of `run` in one turn of the event loop. A call holds those that its own hooks make
-- before they return: `onPendingWorkChanged`, which may throw, and `prepare`.
pub data RunCalls : Type 0 where
  no_call : RunCalls
  call :
      (kind : SyncSessionKind) (in_hook : RunCalls) (hook_returns : Bool)
      (in_prepare later : RunCalls)
      → RunCalls

pub data Event : Type 0 where
  request : RunCalls → Event
  prepared prepare_failed hook_returned hook_rejected started finished settlement_released
        full_released :
      (id : ℕ) → Event

-- `hasPendingWork`
unfoldable pub has_pending_work : SyncCoordinator → Bool
has_pending_work c = ltb 0 c.pending_work

-- The first session with this id, moved to the next phase where the event is enabled.
unfoldable pub change :
    (SyncSessionKind → Phase → Option Phase) → ℕ → List Session → Option (List Session)
change next id [] = none
change next id (s ∷ rest) =
    if s.id == id
    then elim (next s.kind s.phase) [
      | none ↦ none
      | some phase ↦ some (record s { phase = phase } ∷ rest)
    ]
    else elim (change next id rest) [ none ↦ none | some rest' ↦ some (s ∷ rest') ]

-- The first session with this id, taken out of a list.
unfoldable pub take_out : ℕ → List Session → Option (Session × List Session)
take_out id [] = none
take_out id (s ∷ rest) =
    if s.id == id
    then some (s, rest)
    else elim (take_out id rest) [ none ↦ none | some (t, rest') ↦ some (t, s ∷ rest') ]

abbrev pub is_settled : Phase → Bool
is_settled preparing = false
is_settled (waiting hooked) = false
is_settled active = false
is_settled settled = true
is_settled released = true
is_settled closed = true

abbrev pub is_ready : Phase → Bool
is_ready (waiting hooked) = hooked
is_ready _ = false

-- `Promise.all([this.tail, queued])`: the predecessor is settled and `onQueued` has returned.
unfoldable pub start_in : (free : Bool) → ℕ → List Session → Option (Session × List Session)
start_in free id [] = none
start_in free id (s ∷ rest) =
    if s.id == id
    then (if free && is_ready s.phase then some (s, record s { phase = active } ∷ rest) else none)
    else elim (start_in (is_settled s.phase) id rest) [
      | none ↦ none
      | some (t, rest') ↦ some (t, s ∷ rest')
    ]

abbrev pub hook_return : SyncSessionKind → Phase → Option Phase
hook_return kind (waiting false) = some (waiting true)
hook_return kind _ = none

-- A rejected `onQueued` rejects `run` at once, whether or not the tail is settled.
abbrev pub hook_reject : SyncSessionKind → Phase → Option Phase
hook_reject kind (waiting false) = some settled
hook_reject kind _ = none

abbrev pub finish_body : SyncSessionKind → Phase → Option Phase
finish_body kind active = some settled
finish_body kind _ = none

abbrev pub to_released : SyncSessionKind → Phase → Option Phase
to_released kind settled = some released
to_released kind _ = none

-- Only a full session has a shared promise to clear.
abbrev pub to_closed : SyncSessionKind → Phase → Option Phase
to_closed full released = some closed
to_closed _ _ = none

-- `createSessionId` and `this.pendingWork++`
unfoldable pub count_work : SyncCoordinator → SyncCoordinator
count_work c = record c { sequence = c.sequence + 1; pending_work = c.pending_work + 1 }

-- The call of `execute`, which enters `prepare`.
unfoldable pub begin_prepare : SyncSessionKind → ℕ → SyncCoordinator → SyncCoordinator
begin_prepare kind id c = record c {
  preparations = c.preparations ++ record { id = id; kind = kind; phase = preparing } ∷ [];
}

-- `this.pendingFull = shared`
unfoldable pub share : SyncSessionKind → ℕ → SyncCoordinator → SyncCoordinator
share kind id c = record c { pending_full = if is_full kind then some id else c.pending_full }

-- `run`, up to its first await, for all calls of a turn: a full request joins the pending full
-- session, and a hook that throws leaves the call after `this.pendingWork++`.
unfoldable pub run : RunCalls → SyncCoordinator → SyncCoordinator
unfolding count_work begin_prepare share
run no_call c = c
run (call kind in_hook hook_returns in_prepare later) c =
    let id = c.sequence + 1 in
    let counted = run in_hook (count_work c) in
    let shared = share kind id (run in_prepare (begin_prepare kind id counted)) in
    run later (
      if is_full kind && is_some c.pending_full
      then c
      else if hook_returns
      then shared
      else counted)

-- `enqueueSession`, up to its first await.
unfoldable pub enqueue_session : ℕ → SyncCoordinator → Option SyncCoordinator
enqueue_session id c = elim (take_out id c.preparations) [
  | none ↦ none
  | some (s, rest) ↦
      some (record c {
        preparations = rest;
        queue = c.queue ++ record s { phase = waiting false } ∷ [];
      })
]

-- The rejection of `prepare`, or a throw of `onQueued` itself, before the chain is extended.
unfoldable pub abort : ℕ → SyncCoordinator → Option SyncCoordinator
abort id c = elim (take_out id c.preparations) [
  | none ↦ none
  | some (s, rest) ↦
      some
        (record c { preparations = rest; aborted = c.aborted ++ record s { phase = settled } ∷ [] })
]

abbrev pub with_queue : SyncCoordinator → Option (List Session) → Option SyncCoordinator
with_queue c none = none
with_queue c (some queue) = some (record c { queue = queue })

-- The entry of the session's body.
unfoldable pub start_session : ℕ → SyncCoordinator → Option SyncCoordinator
start_session id c = elim (start_in true id c.queue) [
  | none ↦ none
  | some (s, queue) ↦ some (record c { queue = queue; active_session = some (s.id, s.kind) })
]

-- The last `finally` of the session's body.
unfoldable pub finish_session : ℕ → SyncCoordinator → Option SyncCoordinator
finish_session id c = elim (change finish_body id c.queue) [
  | none ↦ none
  | some queue ↦ some (record c { queue = queue; active_session = none })
]

-- A phase of a session whose `run` is settled, in the queue or aborted.
unfoldable pub change_settled :
    (SyncSessionKind → Phase → Option Phase) → ℕ → SyncCoordinator → Option SyncCoordinator
change_settled next id c = elim (change next id c.queue) [
  | some queue ↦ some (record c { queue = queue })
  | none ↦ elim (change next id c.aborted) [
    | some aborted ↦ some (record c { aborted = aborted })
    | none ↦ none
  ]
]

-- `execute().finally(...)`; the hook that it calls last changes nothing here if it throws.
unfoldable pub give_back_work : ℕ → SyncCoordinator → Option SyncCoordinator
give_back_work id c = elim (change_settled to_released id c) [
  | none ↦ none
  | some d ↦ some (record d { pending_work = d.pending_work - 1 })
]

-- `run.finally(...)` of a full session.
unfoldable pub give_back_full : ℕ → SyncCoordinator → Option SyncCoordinator
give_back_full id c = elim (change_settled to_closed id c) [
  | none ↦ none
  | some d ↦
      some (record d { pending_full = if d.pending_full == some id then none else d.pending_full })
]

unfoldable pub step : Event → SyncCoordinator → Option SyncCoordinator
unfolding run enqueue_session abort start_session finish_session change_settled give_back_work
    give_back_full
step (request calls) c = some (run calls c)
step (prepared id) c = enqueue_session id c
step (prepare_failed id) c = abort id c
step (hook_returned id) c = with_queue c (change hook_return id c.queue)
step (hook_rejected id) c = with_queue c (change hook_reject id c.queue)
step (started id) c = start_session id c
step (finished id) c = finish_session id c
step (settlement_released id) c = give_back_work id c
step (full_released id) c = give_back_full id c

unfoldable pub steps : List Event → SyncCoordinator → Option SyncCoordinator
unfolding step
steps [] c = some c
steps (e ∷ es) c = elim (step e c) [ none ↦ none | some d ↦ steps es d ]
