-- ===== src/Reconciliation/Epoch.antt =====
-- src/sync/reconciliation/conflicts.ts: the adoption of a replacement epoch, a three-way merge of
-- existence and content against the last fully applied device baseline.
pub mod ThreeWay
pub mod Edits
use obsidian_yandex_disk_syn.Common.{
  ℕ, zero, suc, ◌+◌, ◌-◌, ◌≤◌, ◌<◌, ◌≡◌, refl, sym, ap, ◌∙◌, subst, ◌≢◌, ◌↔◌, ◌⊎◌, inl, inr, Bool,
  true, false, not, ◌&&◌, ◌||◌, Option, none, some, List, [], ◌∷◌, ◌++◌, map, arith, ltb, leb,
  if◌then◌else◌, get_or, truthy, truthy_list, is_some, ◌==◌, ◌!=◌, nat_eq, bool_eq, option_eq,
  list_eq, Bool-cases, Option-cases, length, length-append, any, all, filter, find, last, All, Some,
  has, eq_of_test, test_self, Eq, max, min,
}
use obsidian_yandex_disk_syn.Common.Text.{
  Text, codes, strip_prefix, starts_with, strip_prefix-append, append-strip_prefix, trim_slashes,
  split_slash, join_slash,
}
use obsidian_yandex_disk_syn.Common.Dict.{
  Dict, lookup, insert, erase, NodupKeys, lookup-insert, lookup-insert_self, lookup-erase,
}
use obsidian_yandex_disk_syn.Reconciliation.Operation.{
  SyncAction, upload, download, delete_remote, delete_local, conflict, keep, SyncCausalOrigin,
  new_local_operation, apply_canonical, physical_repair, Reason, new_local, new_remote, resuming,
  restores, exact_remote_wins, removing_physical, supersedes, local_deleted, remote_deleted,
  stale_deletion, committed_deletion, both_deleted, repairing, exact_local_wins, undefined_state,
  identical, no_baseline_conflict, first_sync_identical, both_changed, only_local, only_remote,
  neither_changed, both_descendants, local_survives, remote_survives, parent_deleted, epoch_repair,
  epoch_identical, epoch_both, epoch_restores, epoch_deletion_wins, epoch_reapplied,
  epoch_deletion_reapplied, epoch_absent, epoch_remote_changed, epoch_deleted, epoch_unchanged,
  SyncOperation, operation, is_active, is_download, is_deleted, with_causal_origin,
  is_repair_reason, reason_text,
}
use obsidian_yandex_disk_syn.Types.{FileMetadata, FolderTombstone}
use obsidian_yandex_disk_syn.Local.Baseline.{
  has_local_content_changed, has_canonical_metadata_changed, get_remote_physical_drift,
  create_confirmed_baseline,
}
use obsidian_yandex_disk_syn.Reconciliation.Resolve.{
  same_sha, has_physical_remote_drift, compare_with_baseline, compare_first, compare_files,
  resolve_tombstoned, resolve_deleted_baseline, resolve_absent, resolve_rest, resolve_action,
}
use obsidian_yandex_disk_syn.Reconciliation.Determine.{collect_all_paths, with_causal_origins}

-- `physical?.field ?? canonicalEntry.field`
abbrev or_else {ℓ} : {A : Type ℓ} → Option A → Option A → Option A
or_else none b = b
or_else (some a) b = some a

-- `remoteLive`
unfoldable pub live_remote : (physical index : Option FileMetadata) → Option FileMetadata
live_remote physical none = none
live_remote none (some index) = if truthy index.deleted then none else some index
live_remote (some physical) (some index) =
    if truthy index.deleted
    then none
    else some (record index {
      remote_mtime = or_else physical.remote_mtime index.remote_mtime;
      remote_fingerprint = or_else physical.remote_fingerprint index.remote_fingerprint;
    })

-- `baselineLive`
abbrev pub is_live : Option FileMetadata → Bool
is_live none = false
is_live (some base) = not (truthy base.deleted)

-- `localChanged` and `logicalRemoteChanged`: one test for both sides.
unfoldable pub has_side_changed : (base side : Option FileMetadata) → Bool
has_side_changed base side =
    if is_live base then not (is_some side) || not (same_sha side base) else is_some side

-- `physicalRemoteChanged`
unfoldable pub has_physical_changed : (live physical index : Option FileMetadata) → Bool
has_physical_changed none physical index = false
has_physical_changed (some live) none index = true
has_physical_changed (some live) (some physical) index =
    get_or (get_remote_physical_drift physical index) false

-- `resolveConcurrentEpochChange`
unfoldable pub resolve_concurrent_epoch_change :
    Text → (here remote : Option FileMetadata) → SyncOperation
resolve_concurrent_epoch_change path (some here) (some remote) =
    operation path conflict epoch_both (some here) (some remote)
resolve_concurrent_epoch_change path (some here) none =
    operation path upload epoch_restores (some here) none
resolve_concurrent_epoch_change path none (some remote) =
    operation path delete_remote epoch_deletion_wins none (some remote)
resolve_concurrent_epoch_change path none none = operation path keep epoch_absent none none

-- The branch where only the local side changed.
unfoldable pub reapply_local : Text → (here remote : Option FileMetadata) → SyncOperation
reapply_local path (some here) remote = operation path upload epoch_reapplied (some here) remote
reapply_local path none (some remote) =
    operation path delete_remote epoch_deletion_reapplied none (some remote)
reapply_local path none none = operation path keep epoch_absent none none

-- The branch where only the remote side changed.
unfoldable pub accept_remote : Text → (here remote : Option FileMetadata) → SyncOperation
accept_remote path here (some remote) =
    operation path download epoch_remote_changed here (some remote)
accept_remote path (some here) none = operation path delete_local epoch_deleted (some here) none
accept_remote path none none = operation path keep epoch_absent none none

-- One round of the loop of `determineEpochAdoptionOperations`.
unfoldable pub adopt : Text → (here physical base index : Option FileMetadata) → SyncOperation
unfolding live_remote has_side_changed has_physical_changed resolve_concurrent_epoch_change
    reapply_local accept_remote
adopt path here physical base index =
    let remote = live_remote physical index in
    let same = is_some here && is_some remote && same_sha here remote in
    let physical_changed = has_physical_changed remote physical index in
    let local_changed = has_side_changed base here in
    let remote_changed = has_side_changed base remote || physical_changed in
    if same && not (is_some physical)
    then operation path upload epoch_repair here none
    else if same && not physical_changed
    then operation path keep epoch_identical here remote
    else if local_changed && remote_changed
    then resolve_concurrent_epoch_change path here remote
    else if local_changed
    then reapply_local path here remote
    else if remote_changed
    then accept_remote path here remote
    else operation path keep epoch_unchanged none none

module _ (local_files remote_files previous_baseline canonical_files : Dict Text FileMetadata) where
  unfoldable pub adopt_path : Text → SyncOperation
  adopt_path path =
      adopt path (lookup path local_files) (lookup path remote_files)
        (lookup path previous_baseline) (lookup path canonical_files)

  unfoldable pub push_adoptions : List Text → List SyncOperation
  push_adoptions [] = []
  push_adoptions (path ∷ paths) =
      let o = adopt_path path in
      if is_active o.action then o ∷ push_adoptions paths else push_adoptions paths

  -- `determineEpochAdoptionOperations`
  unfoldable pub determine_epoch_adoption_operations : List SyncOperation
  unfolding push_adoptions
  determine_epoch_adoption_operations = with_causal_origins canonical_files (
      push_adoptions (collect_all_paths local_files remote_files previous_baseline canonical_files))
