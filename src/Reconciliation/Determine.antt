-- ===== src/Reconciliation/Determine.antt =====
-- src/sync/reconciliation/conflicts.ts: the operations of a reconciliation, one decision for each
-- path that a source names.
pub mod Pointwise
pub mod Tombstoned
use obsidian_yandex_disk_syn.Common.{
  ℕ, zero, suc, ◌+◌, ◌-◌, ◌≤◌, ◌<◌, ◌≡◌, refl, sym, ap, ◌∙◌, subst, ◌≢◌, ◌↔◌, ◌⊎◌, inl, inr, Bool,
  true, false, not, ◌&&◌, ◌||◌, Option, none, some, List, [], ◌∷◌, ◌++◌, map, arith, ltb, leb,
  if◌then◌else◌, get_or, truthy, truthy_list, is_some, ◌==◌, ◌!=◌, nat_eq, bool_eq, option_eq,
  list_eq, Bool-cases, Option-cases, length, length-append, any, all, filter, find, last, All, Some,
  has, eq_of_test, test_self, Eq, max, min,
}
use obsidian_yandex_disk_syn.Common.Text.{
  Text, codes, strip_prefix, starts_with, strip_prefix-append, append-strip_prefix, trim_slashes,
  split_slash, join_slash,
}
use obsidian_yandex_disk_syn.Common.Dict.{
  Dict, lookup, insert, erase, NodupKeys, lookup-insert, lookup-insert_self, lookup-erase,
}
use obsidian_yandex_disk_syn.Reconciliation.Operation.{
  SyncAction, upload, download, delete_remote, delete_local, conflict, keep, SyncCausalOrigin,
  new_local_operation, apply_canonical, physical_repair, Reason, new_local, new_remote, resuming,
  restores, exact_remote_wins, removing_physical, supersedes, local_deleted, remote_deleted,
  stale_deletion, committed_deletion, both_deleted, repairing, exact_local_wins, undefined_state,
  identical, no_baseline_conflict, first_sync_identical, both_changed, only_local, only_remote,
  neither_changed, both_descendants, local_survives, remote_survives, parent_deleted, epoch_repair,
  epoch_identical, epoch_both, epoch_restores, epoch_deletion_wins, epoch_reapplied,
  epoch_deletion_reapplied, epoch_absent, epoch_remote_changed, epoch_deleted, epoch_unchanged,
  SyncOperation, operation, is_active, is_download, is_deleted, with_causal_origin,
  is_repair_reason, reason_text,
}
use obsidian_yandex_disk_syn.Types.{FileMetadata, FolderTombstone}
use obsidian_yandex_disk_syn.Canonical.Folder.{find_folder_tombstone}
use obsidian_yandex_disk_syn.Local.Baseline.{has_local_content_changed, get_remote_physical_drift}
use obsidian_yandex_disk_syn.Reconciliation.Resolve.{same_sha, resolve_action}

-- The arguments of `determineOperations`.
pub record Sources : Type 0 where
  pub local_files : Dict Text FileMetadata
  pub remote_files : Dict Text FileMetadata
  pub local_index : Dict Text FileMetadata
  pub remote_index : Dict Text FileMetadata
  pub folder_tombstones : Dict Text FolderTombstone
  pub pending_local_deletes : List Text

-- `set.add(path)`
abbrev pub add_path : List Text → Text → List Text
add_path paths path = if has paths path then paths else paths ++ path ∷ []

unfoldable pub add_keys : List Text → Dict Text FileMetadata → List Text
add_keys paths [] = paths
add_keys paths ((path, _) ∷ files) = add_keys (add_path paths path) files

-- `collectAllPaths`
unfoldable pub collect_all_paths :
    (local_files remote_files local_index remote_index : Dict Text FileMetadata) → List Text
unfolding add_keys
collect_all_paths local_files remote_files local_index remote_index =
    add_keys (add_keys (add_keys (add_keys [] local_files) remote_files) local_index) remote_index

-- `localMeta !== null && hasLocalContentChanged(localMeta, localIndexMeta)`
abbrev pub is_edited : Option FileMetadata → Option FileMetadata → Bool
is_edited none base = false
is_edited (some here) base = has_local_content_changed here base

-- `remoteMeta !== null && (getRemotePhysicalDrift(remoteMeta, remoteIndexMeta) ?? false)`
abbrev pub is_drifted : Option FileMetadata → Option FileMetadata → Bool
is_drifted none index = false
is_drifted (some remote) index = get_or (get_remote_physical_drift remote index) false

-- `(remoteIndexMeta?.changedRevision ?? 0) < folderTombstone.changedRevision`
unfoldable pub tombstone_applies : Option FolderTombstone → Option FileMetadata → Bool
tombstone_applies none index = false
tombstone_applies (some tombstone) none = ltb 0 tombstone.changed_revision
tombstone_applies (some tombstone) (some index) =
    ltb (get_or index.changed_revision 0) tombstone.changed_revision

-- A derived deletion names the folder tombstone that is responsible for it.
abbrev pub because_of : Option FolderTombstone → SyncOperation → SyncOperation
because_of none o = o
because_of (some tombstone) o = record o { folder_tombstone_path = some tombstone.path }

-- `determineOperations`, the block under `if (tombstoneApplies)`: `none` if no test pushes.
unfoldable pub decide_tombstoned :
    Text
    → Option FolderTombstone
    → (here remote base index : Option FileMetadata) → Option SyncOperation
decide_tombstoned path tombstone here remote base index =
    if is_edited here base && is_drifted remote index
    then some (
        operation path (if same_sha here remote then upload else conflict) both_descendants here
          remote)
    else if is_edited here base
    then some (operation path upload local_survives here remote)
    else if is_drifted remote index
    then some (operation path download remote_survives none remote)
    else if is_some here
    then some (because_of tombstone (operation path delete_local parent_deleted here none))
    else if is_some remote
    then some (because_of tombstone (operation path delete_remote parent_deleted none remote))
    else none

-- One round of the loop of `determineOperations`, with the four states of the path.
unfoldable pub decide_operation :
    Text
    → Option FolderTombstone
    → (here remote base index : Option FileMetadata) → Bool
    → SyncOperation
unfolding tombstone_applies decide_tombstoned
decide_operation path tombstone here remote base index pending =
    if tombstone_applies tombstone index
    then get_or (decide_tombstoned path tombstone here remote base index)
        (resolve_action path here remote base index pending)
    else resolve_action path here remote base index pending

unfoldable pub decide_path : Sources → Text → SyncOperation
decide_path s path =
    decide_operation path (find_folder_tombstone path s.folder_tombstones)
      (lookup path s.local_files) (lookup path s.remote_files) (lookup path s.local_index)
      (lookup path s.remote_index) (has s.pending_local_deletes path)

-- The loop of `determineOperations`: an operation is pushed unless its action is `none`.
unfoldable pub push_operations : Sources → List Text → List SyncOperation
push_operations s [] = []
push_operations s (path ∷ paths) =
    let o = decide_path s path in
    if is_active o.action then o ∷ push_operations s paths else push_operations s paths

-- `operations.map((operation) => this.withCausalOrigin(...))`
unfoldable pub with_causal_origins :
    Dict Text FileMetadata → List SyncOperation → List SyncOperation
unfolding with_causal_origin
with_causal_origins index [] = []
with_causal_origins index (o ∷ os) =
    with_causal_origin o (lookup o.path index) ∷ with_causal_origins index os

-- `determineOperations`
unfoldable pub determine_operations : Sources → List SyncOperation
unfolding push_operations with_causal_origins collect_all_paths
determine_operations s = with_causal_origins s.remote_index (
    push_operations s (collect_all_paths s.local_files s.remote_files s.local_index s.remote_index))
