-- ===== src/Realtime/Partition.antt =====
-- src/sync/realtime/queue-rules.ts: `partitionFolderRenameQueue` and `retargetFolderDescendants`, the
-- events below a folder that is renamed.
pub mod Descendants
use obsidian_yandex_disk_syn.Common.{
  ℕ, zero, suc, ◌+◌, ◌-◌, ◌≤◌, ◌<◌, ◌≡◌, refl, sym, ap, ◌∙◌, subst, ◌≢◌, ◌↔◌, ◌⊎◌, inl, inr, Bool,
  true, false, not, ◌&&◌, ◌||◌, Option, none, some, List, [], ◌∷◌, ◌++◌, map, arith, ltb, leb,
  if◌then◌else◌, get_or, truthy, truthy_list, is_some, ◌==◌, ◌!=◌, nat_eq, bool_eq, option_eq,
  list_eq, Bool-cases, Option-cases, length, length-append, any, all, filter, find, last, All, Some,
  has, eq_of_test, test_self, Eq, max, min,
}
use obsidian_yandex_disk_syn.Common.Text.{
  Text, codes, strip_prefix, starts_with, strip_prefix-append, append-strip_prefix, trim_slashes,
  split_slash, join_slash,
}
use obsidian_yandex_disk_syn.Common.Dict.{
  Dict, lookup, insert, erase, NodupKeys, lookup-insert, lookup-insert_self, lookup-erase,
}
use obsidian_yandex_disk_syn.Realtime.Events.{
  FileAction, upload, delete, RealtimeFileEvent, DurableFileRenameEvent, DurableFolderRenameEvent,
  DurableFolderDeleteEvent, WatcherQueueEvent, file_event, folder_delete, folder_rename,
  file_rename, id_of, path_of, RenameEvent, file_rename_event, folder_rename_event,
}
use obsidian_yandex_disk_syn.Realtime.Rename.{
  ChildRename, absorbed_child, unrelated_child, successor_child, reduce_folder_child_rename,
  ChainDisposition, queued, rebased, running, RenameChain, reduce_rename_chain, rebase_first,
  leads_to, FolderRenameParentSelection, select_folder_rename_parent,
  map_path_through_folder_rename,
}
use obsidian_yandex_disk_syn.Realtime.Queue.{
  rebase_child, rebase_children, rebase_queue, reduce_folder_rename, chain_file_rename,
  reduce_file_rename, find_rename_to, reduce_file_event, reduce_folder_delete, reduce_watcher_queue,
  settle_child, settle_under, settle_chain, with_children, run_folder_after, run_file_after,
  mark_ambiguous, replace_predecessor, in_place_of, outlives, is_under, find_by_id,
}
use obsidian_yandex_disk_syn.Realtime.Waiting.{
  WatcherQueueContext, WatcherQueueReduction, is_submitted_id, is_submitted, stays,
  should_retain_queued_file_event, initial, enqueue, folder_renames, file_renames, replace_rename,
}

pub record FolderPartition : Type 0 where
  pub retained : List WatcherQueueEvent
  pub descendants : List WatcherQueueEvent
  pub coalesced_parent : Bool

-- The target of a rename of either kind.
abbrev pub target_of : WatcherQueueEvent → Option Text
target_of (file_rename e) = some e.target_path
target_of (folder_rename e) = some e.target_path
target_of event = none

-- `path.startsWith(prefix)` for `prefix` the old path and a slash.
abbrev pub below : Text → Text → Bool
below old_path path = starts_with path (old_path ++ b'/' ∷ [])

abbrev pub target_below : Text → Option Text → Bool
target_below old_path none = false
target_below old_path (some target) = below old_path target

abbrev pub is_descendant : WatcherQueueContext → Text → WatcherQueueEvent → Bool
is_descendant context old_path event =
    not (is_submitted context event)
    && (below old_path (path_of event) || target_below old_path (target_of event))

abbrev pub leads_here : WatcherQueueContext → Text → WatcherQueueEvent → Bool
leads_here context old_path (folder_rename e) =
    not (is_submitted context (folder_rename e)) && e.target_path == old_path
leads_here context old_path event = false

-- One round of the loop.
unfoldable pub partition_event :
    WatcherQueueContext → Text → FolderPartition → WatcherQueueEvent → FolderPartition
partition_event context old_path p event =
    let seen = p.coalesced_parent || leads_here context old_path event in
    if is_descendant context old_path event
    then record p { descendants = p.descendants ++ event ∷ []; coalesced_parent = seen }
    else record p { retained = p.retained ++ event ∷ []; coalesced_parent = seen }

unfoldable pub partition_from :
    WatcherQueueContext → Text → FolderPartition → List WatcherQueueEvent → FolderPartition
unfolding partition_event
partition_from context old_path p [] = p
partition_from context old_path p (event ∷ events) =
    partition_from context old_path (partition_event context old_path p event) events

-- `partitionFolderRenameQueue`
unfoldable pub partition_folder_rename_queue :
    List WatcherQueueEvent → Text → WatcherQueueContext → FolderPartition
unfolding partition_from
partition_folder_rename_queue events old_path context =
    partition_from context old_path
      (record { retained = []; descendants = []; coalesced_parent = false }) events

-- `mapPathThroughFolderRename(path, oldPath, targetPath) ?? path`
unfoldable pub retarget : Text → Text → Text → Text
retarget old_path target_path path =
    get_or (map_path_through_folder_rename path old_path target_path) path

pub record Retargeted : Type 0 where
  pub predecessors : List WatcherQueueEvent
  pub successors : List WatcherQueueEvent

abbrev pub is_upload : WatcherQueueEvent → Bool
is_upload (file_event e) = elim e.action [ upload ↦ true | delete ↦ false ]
is_upload event = false

-- An event that stays before the folder rename: a rename leads below the new path.
unfoldable pub as_predecessor : Text → Text → WatcherQueueEvent → WatcherQueueEvent
unfolding retarget
as_predecessor old_path target_path (file_rename e) =
    file_rename (record e { target_path = retarget old_path target_path e.target_path })
as_predecessor old_path target_path (folder_rename e) =
    folder_rename (record e { target_path = retarget old_path target_path e.target_path })
as_predecessor old_path target_path event = event

-- An event that follows the folder rename.
unfoldable pub as_successor : Text → Text → Option Text → WatcherQueueEvent → WatcherQueueEvent
unfolding retarget
as_successor old_path target_path parent_id (file_rename e) = file_rename (record e {
  path = retarget old_path target_path e.path;
  target_path = retarget old_path target_path e.target_path;
  predecessor_folder_event_id = parent_id;
})
as_successor old_path target_path parent_id (folder_rename e) = folder_rename (record e {
  path = retarget old_path target_path e.path;
  target_path = retarget old_path target_path e.target_path;
  predecessor_folder_event_id = parent_id;
})
as_successor old_path target_path parent_id (file_event e) =
    file_event (record e { path = retarget old_path target_path e.path })
as_successor old_path target_path parent_id (folder_delete e) =
    folder_delete (record e { path = retarget old_path target_path e.path })

-- `retargetFolderDescendants`; the two lists are built from their ends.
unfoldable pub retarget_folder_descendants :
    List WatcherQueueEvent → Text → Text → Option Text → Bool → Retargeted
unfolding as_predecessor as_successor
retarget_folder_descendants [] old_path target_path parent_id coalesced = record {
  predecessors = [];
  successors = [];
}
retarget_folder_descendants (event ∷ events) old_path target_path parent_id coalesced =
    let rest = retarget_folder_descendants events old_path target_path parent_id coalesced in
    if not coalesced && not (is_upload event)
    then record rest {
      predecessors = as_predecessor old_path target_path event ∷ rest.predecessors;
    }
    else record rest {
      successors = as_successor old_path target_path parent_id event ∷ rest.successors;
    }
