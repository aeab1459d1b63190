-- ===== src/Reconciliation/Resolve.antt =====
-- src/sync/reconciliation/conflicts.ts: the decision for one path, from the local file, the
-- physical remote file, the device baseline (`base`) and the canonical entry (`index`).
pub mod Deletions
pub mod Overwrites
pub mod Settled
use obsidian_yandex_disk_syn.Common.{
  ℕ, zero, suc, ◌+◌, ◌-◌, ◌≤◌, ◌<◌, ◌≡◌, refl, sym, ap, ◌∙◌, subst, ◌≢◌, ◌↔◌, ◌⊎◌, inl, inr, Bool,
  true, false, not, ◌&&◌, ◌||◌, Option, none, some, List, [], ◌∷◌, ◌++◌, map, arith, ltb, leb,
  if◌then◌else◌, get_or, truthy, truthy_list, is_some, ◌==◌, ◌!=◌, nat_eq, bool_eq, option_eq,
  list_eq, Bool-cases, Option-cases, length, length-append, any, all, filter, find, last, All, Some,
  has, eq_of_test, test_self, Eq, max, min,
}
use obsidian_yandex_disk_syn.Common.Text.{
  Text, codes, strip_prefix, starts_with, strip_prefix-append, append-strip_prefix, trim_slashes,
  split_slash, join_slash,
}
use obsidian_yandex_disk_syn.Common.Dict.{
  Dict, lookup, insert, erase, NodupKeys, lookup-insert, lookup-insert_self, lookup-erase,
}
use obsidian_yandex_disk_syn.Types.{FileMetadata}
use obsidian_yandex_disk_syn.Local.Baseline.{
  has_local_content_changed, has_canonical_metadata_changed, get_remote_physical_drift,
}
use obsidian_yandex_disk_syn.Reconciliation.Operation.{
  SyncAction, upload, download, delete_remote, delete_local, conflict, keep, SyncCausalOrigin,
  new_local_operation, apply_canonical, physical_repair, Reason, new_local, new_remote, resuming,
  restores, exact_remote_wins, removing_physical, supersedes, local_deleted, remote_deleted,
  stale_deletion, committed_deletion, both_deleted, repairing, exact_local_wins, undefined_state,
  identical, no_baseline_conflict, first_sync_identical, both_changed, only_local, only_remote,
  neither_changed, both_descendants, local_survives, remote_survives, parent_deleted, epoch_repair,
  epoch_identical, epoch_both, epoch_restores, epoch_deletion_wins, epoch_reapplied,
  epoch_deletion_reapplied, epoch_absent, epoch_remote_changed, epoch_deleted, epoch_unchanged,
  SyncOperation, operation, is_active, is_download, is_deleted, with_causal_origin,
  is_repair_reason, reason_text,
}

-- `a?.sha256 === b?.sha256`
abbrev pub same_sha : Option FileMetadata → Option FileMetadata → Bool
same_sha none none = true
same_sha none (some b) = false
same_sha (some a) none = false
same_sha (some a) (some b) = a.sha256 == b.sha256

-- `hasPhysicalRemoteDrift`
unfoldable pub has_physical_remote_drift : FileMetadata → Option FileMetadata → Bool
has_physical_remote_drift remote index =
    get_or (get_remote_physical_drift remote index) (not (same_sha (some remote) index))

-- `compareFiles`, after the direct comparison, where the device has a baseline.
unfoldable pub compare_with_baseline :
    Text → FileMetadata → FileMetadata → FileMetadata → Option FileMetadata → SyncOperation
unfolding has_physical_remote_drift
compare_with_baseline path here remote base index =
    let local_changed = has_local_content_changed here (some base) in
    let remotely_changed =
      has_canonical_metadata_changed index base || has_physical_remote_drift remote index in
    if local_changed && remotely_changed
    then operation path conflict both_changed (some here) (some remote)
    else if local_changed
    then operation path upload only_local (some here) (some remote)
    else if remotely_changed
    then operation path download only_remote (some here) (some remote)
    else operation path keep neither_changed (some here) (some remote)

-- `compareFiles`, where the device has none.
unfoldable pub compare_first :
    Text → FileMetadata → FileMetadata → Option FileMetadata → SyncOperation
unfolding has_physical_remote_drift
compare_first path here remote index =
    if is_some index && same_sha (some here) index && not (has_physical_remote_drift remote index)
    then operation path keep first_sync_identical (some here) (some remote)
    else operation path conflict no_baseline_conflict (some here) (some remote)

-- `compareFiles`
unfoldable pub compare_files :
    Text → FileMetadata → FileMetadata → Option FileMetadata → Option FileMetadata → SyncOperation
unfolding compare_with_baseline compare_first
compare_files path here remote base index =
    if here.sha256 == remote.sha256
    then operation path keep identical (some here) (some remote)
    else elim base [
      | none ↦ compare_first path here remote index
      | some b ↦ compare_with_baseline path here remote b index
    ]

-- `resolveAction`, the block under `if (remoteIndexMeta?.deleted)`: `none` if no test returns.
unfoldable pub resolve_tombstoned :
    Text → (here remote base : Option FileMetadata) → Bool → Option SyncOperation
resolve_tombstoned path none none base pending = none
resolve_tombstoned path none (some remote) base pending =
    some (operation path delete_remote removing_physical none (some remote))
resolve_tombstoned path (some here) remote base pending = some (
    if pending
    then operation path delete_local resuming (some here) remote
    else if not (is_some base) || is_deleted base
    then operation path upload restores (some here) remote
    else operation path delete_local exact_remote_wins (some here) remote)

-- `typeof base.changedRevision === "number" && (index.changedRevision ?? 0) > base.changedRevision`
abbrev is_after : Option ℕ → Option ℕ → Bool
is_after index none = false
is_after index (some revision) = ltb revision (get_or index 0)

-- `resolveAction`, case 3: the baseline records a local deletion and the remote file is there.
unfoldable pub resolve_deleted_baseline :
    Text → FileMetadata → FileMetadata → Option FileMetadata → SyncOperation
resolve_deleted_baseline path remote base none =
    operation path delete_remote local_deleted none (some remote)
resolve_deleted_baseline path remote base (some index) =
    if not (truthy index.deleted)
      && (truthy_list base.deleted_by_folder
          || is_after index.changed_revision base.changed_revision)
    then operation path download supersedes none (some remote)
    else operation path delete_remote local_deleted none (some remote)

-- `resolveAction`, case 5: neither file is there.
unfoldable pub resolve_absent : Text → Option FileMetadata → Option FileMetadata → SyncOperation
resolve_absent path base index =
    if is_deleted base && not (is_deleted index)
    then operation path keep stale_deletion none none
    else if is_deleted index && not (is_deleted base)
    then operation path delete_local committed_deletion none none
    else operation path keep both_deleted none none

-- `resolveAction`, the cases from 3 on.
unfoldable pub resolve_rest : Text → (here remote base index : Option FileMetadata) → SyncOperation
unfolding resolve_deleted_baseline resolve_absent compare_files
resolve_rest path none none base index = resolve_absent path base index
resolve_rest path none (some remote) none index = operation path keep undefined_state none none
resolve_rest path none (some remote) (some base) index =
    if truthy base.deleted
    then resolve_deleted_baseline path remote base index
    else operation path delete_remote exact_local_wins none (some remote)
resolve_rest path (some here) (some remote) base index = compare_files path here remote base index
resolve_rest path (some here) none base none = operation path keep undefined_state none none
resolve_rest path (some here) none base (some index) =
    if truthy index.deleted
    then operation path delete_local remote_deleted (some here) none
    else if here.sha256 == index.sha256
    then operation path upload repairing (some here) none
    else operation path delete_local exact_remote_wins (some here) none

-- `resolveAction`
unfoldable pub resolve_action :
    Text
    → (here remote base index : Option FileMetadata) → (pending_local_delete : Bool) → SyncOperation
unfolding resolve_tombstoned resolve_rest
resolve_action path here remote base index pending =
    if is_some here && not (is_some remote) && not (is_some index)
    then operation path upload new_local here none
    else if not (is_some here) && is_some remote && not (is_some base)
    then operation path download new_remote none remote
    else if is_deleted index
    then get_or (resolve_tombstoned path here remote base pending)
        (resolve_rest path here remote base index)
    else resolve_rest path here remote base index
