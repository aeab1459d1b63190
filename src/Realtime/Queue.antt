-- ===== src/Realtime/Queue.antt =====
-- src/sync/realtime/queue-rules.ts: `reduceWatcherQueue`, how a new event enters the durable queue.
pub mod Submitted
pub mod Kept
pub mod Unique
pub mod Uniqueness
use obsidian_yandex_disk_syn.Realtime.Waiting.{
  queued_event, rebased_event, absorbed_event, WatcherQueueContext, WatcherQueueReduction,
  is_submitted, initial, enqueue, folder_renames, file_renames, replace_rename,
}
use obsidian_yandex_disk_syn.Common.{
  ℕ, zero, suc, ◌+◌, ◌-◌, ◌≤◌, ◌<◌, ◌≡◌, refl, sym, ap, ◌∙◌, subst, ◌≢◌, ◌↔◌, ◌⊎◌, inl, inr, Bool,
  true, false, not, ◌&&◌, ◌||◌, Option, none, some, List, [], ◌∷◌, ◌++◌, map, arith, ltb, leb,
  if◌then◌else◌, get_or, truthy, truthy_list, is_some, ◌==◌, ◌!=◌, nat_eq, bool_eq, option_eq,
  list_eq, Bool-cases, Option-cases, length, length-append, any, all, filter, find, last, All, Some,
  has, eq_of_test, test_self, Eq, max, min,
}
use obsidian_yandex_disk_syn.Common.Text.{
  Text, codes, strip_prefix, starts_with, strip_prefix-append, append-strip_prefix, trim_slashes,
  split_slash, join_slash,
}
use obsidian_yandex_disk_syn.Common.Dict.{
  Dict, lookup, insert, erase, NodupKeys, lookup-insert, lookup-insert_self, lookup-erase,
}
use obsidian_yandex_disk_syn.Realtime.Events.{
  FileAction, upload, delete, RealtimeFileEvent, DurableFileRenameEvent, DurableFolderRenameEvent,
  DurableFolderDeleteEvent, WatcherQueueEvent, file_event, folder_delete, folder_rename,
  file_rename, id_of, path_of, RenameEvent, file_rename_event, folder_rename_event,
}
use obsidian_yandex_disk_syn.Realtime.Rename.{
  ChildRename, absorbed_child, unrelated_child, successor_child, reduce_folder_child_rename,
  ChainDisposition, queued, rebased, running, RenameChain, reduce_rename_chain,
  FolderRenameParentSelection, select_folder_rename_parent,
}

-- The events that a queued child rename turns into under a new folder rename.
unfoldable pub rebase_child :
    WatcherQueueContext → DurableFolderRenameEvent → WatcherQueueEvent → List WatcherQueueEvent
unfolding reduce_folder_child_rename
rebase_child context parent (file_rename candidate) =
    if is_submitted context (file_rename candidate)
    then file_rename candidate ∷ []
    else elim (reduce_folder_child_rename parent candidate) [
      | absorbed_child ↦ []
      | unrelated_child ↦ file_rename candidate ∷ []
      | successor_child event ↦ file_rename event ∷ []
    ]
rebase_child context parent candidate = candidate ∷ []

unfoldable pub is_absorbed :
    WatcherQueueContext → DurableFolderRenameEvent → WatcherQueueEvent → Bool
unfolding rebase_child
is_absorbed context parent candidate = elim (rebase_child context parent candidate) [
  | [] ↦ true
  | _ ∷ _ ↦ false
]

-- `events.flatMap(…)`, with the count of absorbed children.
unfoldable pub rebase_children :
    WatcherQueueContext → DurableFolderRenameEvent → List WatcherQueueEvent → List WatcherQueueEvent
unfolding rebase_child
rebase_children context parent [] = []
rebase_children context parent (candidate ∷ events) =
    rebase_child context parent candidate ++ rebase_children context parent events

-- A chain that is not queued leaves a trace and goes on by its disposition.
module _ {T : Type 0} ⦃rename : RenameEvent T⦄ (wrap : T → WatcherQueueEvent) where
  -- `reduction.events.find((candidate) => candidate.id === reduction.predecessorId)`, which finds the
  -- predecessor, since its rebased event keeps its identity.
  abbrev pub find_by_id : Text → List T → Option T
  find_by_id id events = find (λ candidate. rename.rename_id candidate == id) events

  unfoldable pub rebase_queue : WatcherQueueReduction → RenameChain T → Text → WatcherQueueReduction
  unfolding replace_rename
  rebase_queue r chain id = elim (find_by_id id chain.events) [
    | none ↦ r
    | some predecessor ↦ record r {
      events = replace_rename (wrap predecessor) r.events;
      event = wrap predecessor;
      disposition = rebased_event;
      chain = some (rebased, id);
    }
  ]

-- `reduction.disposition !== "queued" && reduction.predecessorId !== undefined`, with what follows
-- for a chain that is queued, running or rebased.
unfoldable pub follow {ℓ} :
    {R : Type ℓ} → Option Text → ChainDisposition → R → (Text → R) → (Text → R) → R
follow none disposition on_queued on_running on_rebased = on_queued
follow (some id) queued on_queued on_running on_rebased = on_queued
follow (some id) running on_queued on_running on_rebased = on_running id
follow (some id) rebased on_queued on_running on_rebased = on_rebased id

pub follow_by_cases {ℓ κ} :
    {R : Type ℓ} (P : R → Type κ) (predecessor_id : Option Text) (disposition : ChainDisposition)
    (on_queued : R) (on_running on_rebased : Text → R)
    → P on_queued
    → ((id : Text) → P (on_running id))
    → ((id : Text) → predecessor_id ≡ some id → disposition ≡ rebased → P (on_rebased id))
    → P (follow predecessor_id disposition on_queued on_running on_rebased)
unfolding follow
follow_by_cases P none disposition on_queued on_running on_rebased q r b = q
follow_by_cases P (some id) queued on_queued on_running on_rebased q r b = q
follow_by_cases P (some id) running on_queued on_running on_rebased q r b = r id
follow_by_cases P (some id) rebased on_queued on_running on_rebased q r b = b id refl refl

-- How the reduction of a chain goes on: `r` where the event starts a chain, `on_running` where it
-- follows a rename that is running, and the rebased rename in place of the old one.
unfoldable pub settle_chain :
    {T : Type 0} ⦃rename : RenameEvent T⦄
    → (T → WatcherQueueEvent)
    → WatcherQueueContext
    → WatcherQueueReduction
    → (Text → WatcherQueueReduction)
    → RenameChain T
    → WatcherQueueReduction
unfolding enqueue rebase_queue
settle_chain wrap context r on_running chain =
    follow chain.predecessor_id chain.disposition (enqueue context r)
      (λ id. enqueue context (on_running id)) (rebase_queue wrap r chain)

abbrev pub run_folder_after :
    WatcherQueueReduction → DurableFolderRenameEvent → Text → WatcherQueueReduction
run_folder_after r event id = record r {
  event = folder_rename (record event { predecessor_folder_event_id = some id });
  chain = some (running, id);
}

abbrev pub run_file_after : WatcherQueueReduction → Text → WatcherQueueReduction
run_file_after r id = record r { chain = some (running, id) }

abbrev pub with_children :
    WatcherQueueContext → DurableFolderRenameEvent → List WatcherQueueEvent → WatcherQueueReduction
unfolding initial rebase_children is_absorbed
with_children context event existing = record (initial existing (folder_rename event)) {
  events = rebase_children context event existing;
  absorbed_children = length (filter (is_absorbed context event) existing);
}

-- `reduceWatcherQueue`, for a folder rename.
unfoldable pub reduce_folder_rename :
    List WatcherQueueEvent → DurableFolderRenameEvent → WatcherQueueContext → WatcherQueueReduction
unfolding settle_chain with_children
reduce_folder_rename existing event context =
    let r = with_children context event existing in
    settle_chain folder_rename context r (run_folder_after r event)
      (reduce_rename_chain (folder_renames r.events) event context.submitted_watcher_ids)

abbrev pub mark_ambiguous :
    FolderRenameParentSelection → DurableFileRenameEvent → DurableFileRenameEvent
mark_ambiguous selection event =
    if selection.ambiguous then record event { folder_parent_ambiguous = some true } else event

abbrev parent_id : Option DurableFolderRenameEvent → Option Text
parent_id none = none
parent_id (some parent) = some parent.id

-- The second half of the reduction of a file rename, behind its folder parent.
unfoldable pub chain_file_rename :
    WatcherQueueReduction → DurableFileRenameEvent → WatcherQueueContext → WatcherQueueReduction
unfolding settle_chain
chain_file_rename before event context =
    let r = record before { event = file_rename event } in
    settle_chain file_rename context r (run_file_after r)
      (reduce_rename_chain (file_renames r.events) event context.submitted_watcher_ids)

-- A file rename by its relation to the folder rename that moves it.
unfoldable pub settle_child :
    ChildRename
    → WatcherQueueReduction
    → DurableFileRenameEvent
    → WatcherQueueContext
    → WatcherQueueReduction
unfolding chain_file_rename
settle_child absorbed_child r event context = record r { disposition = absorbed_event }
settle_child unrelated_child r event context = chain_file_rename r event context
settle_child (successor_child next) r event context = chain_file_rename r next context

unfoldable pub settle_under :
    Option DurableFolderRenameEvent
    → WatcherQueueReduction
    → DurableFileRenameEvent
    → WatcherQueueContext
    → WatcherQueueReduction
unfolding settle_child
settle_under none r event context = chain_file_rename r event context
settle_under (some parent) r event context =
    settle_child (reduce_folder_child_rename parent event) r event context

-- For a file rename.
unfoldable pub reduce_file_rename :
    List WatcherQueueEvent → DurableFileRenameEvent → WatcherQueueContext → WatcherQueueReduction
unfolding settle_under initial
reduce_file_rename existing incoming context =
    let selection = select_folder_rename_parent (folder_renames existing) incoming.path in
    let event = mark_ambiguous selection incoming in
    let r = record (initial existing (file_rename event)) {
      folder_child = some (parent_id selection.parent, selection.ambiguous);
    } in
    settle_under selection.parent r event context

-- The queued rename whose target the file event concerns.
unfoldable pub find_rename_to :
    WatcherQueueContext → Text → List WatcherQueueEvent → Option DurableFileRenameEvent
find_rename_to context path [] = none
find_rename_to context path (file_rename candidate ∷ events) =
    let rest = find_rename_to context path events in
    if candidate.target_path == path && not (is_submitted context (file_rename candidate))
    then some candidate
    else rest
find_rename_to context path (_ ∷ events) = find_rename_to context path events

-- A delete at the target of a rename, as a delete of the source.
abbrev pub in_place_of :
    DurableFileRenameEvent → List WatcherQueueEvent → RealtimeFileEvent → WatcherQueueReduction
unfolding initial
in_place_of predecessor existing event =
    record (initial existing (
      file_event (record event {
        path = predecessor.path;
        epoch = predecessor.epoch;
        base_revision = predecessor.base_revision;
      }))) {
        events = filter (λ candidate. id_of candidate != predecessor.id) existing;
        deleted_rename_id = some predecessor.id;
      }

-- An upload or a delete at the target of a queued rename: the rename absorbs the upload, and the
-- delete takes the place of the rename.
unfoldable pub replace_predecessor :
    FileAction
    → List WatcherQueueEvent
    → RealtimeFileEvent
    → DurableFileRenameEvent
    → WatcherQueueContext
    → WatcherQueueReduction
unfolding enqueue initial in_place_of
replace_predecessor upload existing event predecessor context =
    record (initial existing (file_event event)) {
      deleted_rename_id = some predecessor.id;
      disposition = absorbed_event;
    }
replace_predecessor delete existing event predecessor context =
    enqueue context (in_place_of predecessor existing event)

-- For an upload or a delete.
unfoldable pub reduce_file_event :
    List WatcherQueueEvent → RealtimeFileEvent → WatcherQueueContext → WatcherQueueReduction
unfolding replace_predecessor find_rename_to
reduce_file_event existing event context = elim (find_rename_to context event.path existing) [
  | none ↦ enqueue context (initial existing (file_event event))
  | some predecessor ↦ replace_predecessor event.action existing event predecessor context
]

abbrev pub is_under : Text → Text → Bool
is_under folder path = starts_with path (trim_slashes folder ++ b'/' ∷ [])

abbrev pub outlives : WatcherQueueContext → Text → WatcherQueueEvent → Bool
outlives context folder candidate =
    is_submitted context candidate || not (is_under folder (path_of candidate))

-- For the deletion of a folder.
unfoldable pub reduce_folder_delete :
    List WatcherQueueEvent → DurableFolderDeleteEvent → WatcherQueueContext → WatcherQueueReduction
unfolding enqueue initial
reduce_folder_delete existing event context =
    let events = filter (outlives context event.path) existing in
    enqueue context (record (initial existing (folder_delete event)) {
      events = events;
      absorbed_descendant_events = some (length existing - length events);
    })

-- `reduceWatcherQueue`
unfoldable pub reduce_watcher_queue :
    List WatcherQueueEvent → WatcherQueueEvent → WatcherQueueContext → WatcherQueueReduction
unfolding reduce_folder_rename reduce_file_rename reduce_file_event reduce_folder_delete
reduce_watcher_queue existing (file_event e) context = reduce_file_event existing e context
reduce_watcher_queue existing (folder_delete e) context = reduce_folder_delete existing e context
reduce_watcher_queue existing (folder_rename e) context = reduce_folder_rename existing e context
reduce_watcher_queue existing (file_rename e) context = reduce_file_rename existing e context
