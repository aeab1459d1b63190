-- ===== src/Reconciliation/Resolve/Deletions.antt =====
-- When a reconciliation removes local content, and when it reports a conflict.
use obsidian_yandex_disk_syn.Common.{
  ◌≡◌, Bool, true, false, not, ◌&&◌, ◌||◌, Option, none, some, arith, is_some, ◌!=◌, nat_eq,
  bool_eq, option_eq, list_eq,
}
use obsidian_yandex_disk_syn.Common.Text.{Text}
use obsidian_yandex_disk_syn.Reconciliation.Operation.{
  SyncAction, delete_local, conflict, is_deleted,
}
use obsidian_yandex_disk_syn.Types.{FileMetadata}
use obsidian_yandex_disk_syn.Local.Baseline.{
  has_local_content_changed, has_canonical_metadata_changed,
}
use obsidian_yandex_disk_syn.Reconciliation.Resolve.{
  same_sha, has_physical_remote_drift, resolve_action,
}

-- A canonical tombstone takes the local file, unless the file was recreated over a path that the
-- device does not hold as live and no committed deletion is pending.
abbrev pub is_tombstoned : (here base index : Option FileMetadata) → Bool → Bool
is_tombstoned here base index pending =
    is_deleted index && is_some here && (pending || (is_some base && not (is_deleted base)))

-- The deletion of a path that neither side holds any more is applied to the baseline.
abbrev pub is_confirming : (here remote base index : Option FileMetadata) → Bool
is_confirming here remote base index =
    is_deleted index && not (is_deleted base) && not (is_some here) && not (is_some remote)

-- The canonical entry is live, its physical file is gone, and the local content is another one.
abbrev pub has_vanished : (here remote index : Option FileMetadata) → Bool
has_vanished here remote index =
    is_some here
    && not (is_some remote)
    && is_some index
    && not (is_deleted index)
    && not (same_sha here index)

abbrev pub is_delete_local : SyncAction → Bool
is_delete_local delete_local = true
is_delete_local _ = false

-- The decision for a path with no folder tombstone is to delete locally exactly if the canonical
-- entry is a tombstone that takes the local file, or one that only the baseline has to follow, or
-- is live while its physical file is gone and the local content differs from it.
pub resolve_action-delete_local :
    (path : Text) (here remote base index : Option FileMetadata) (pending : Bool)
    → is_delete_local (resolve_action path here remote base index pending).action ≡ (
        is_tombstoned here base index pending
        || is_confirming here remote base index
        || has_vanished here remote index)
unfolding resolve_action has_local_content_changed
resolve_action-delete_local path none none base none pending = ground arith
resolve_action-delete_local path none none base (some index) pending = ground arith
resolve_action-delete_local path none (some remote) none index pending = ground arith
resolve_action-delete_local path none (some remote) (some base) index pending = ground arith
resolve_action-delete_local path (some here) none base none pending = ground arith
resolve_action-delete_local path (some here) none base (some index) pending = ground arith
resolve_action-delete_local path (some here) (some remote) base none pending = ground arith
resolve_action-delete_local path (some here) (some remote) base (some index) pending = ground arith

abbrev pub is_conflict : SyncAction → Bool
is_conflict conflict = true
is_conflict _ = false

-- The remote side differs from what the device confirmed: the canonical entry has another content
-- or another liveness, or the physical file is not the one that the entry describes.
abbrev pub remotely_changed : FileMetadata → FileMetadata → Option FileMetadata → Bool
remotely_changed remote base index =
    has_canonical_metadata_changed index base || has_physical_remote_drift remote index

-- With no baseline the only way out of a conflict is the content that the canonical entry names.
abbrev pub both_sides_changed :
    (here remote : FileMetadata) → (base index : Option FileMetadata) → Bool
both_sides_changed here remote none index =
    not (same_sha (some here) index) || has_physical_remote_drift remote index
both_sides_changed here remote (some base) index =
    has_local_content_changed here (some base) && remotely_changed remote base index

abbrev pub is_conflicting : (here remote base index : Option FileMetadata) → Bool
is_conflicting none remote base index = false
is_conflicting (some here) none base index = false
is_conflicting (some here) (some remote) base index =
    not (is_deleted index)
    && here.sha256 != remote.sha256
    && both_sides_changed here remote base index

-- A conflict is reported exactly if both files are there with different contents, the canonical
-- entry is not a tombstone, and both sides changed against the device baseline; with no baseline,
-- if the canonical entry does not name the local content or does not describe the physical file.
pub resolve_action-conflict :
    (path : Text) (here remote base index : Option FileMetadata) (pending : Bool)
    → is_conflict (resolve_action path here remote base index pending).action
      ≡ is_conflicting here remote base index
unfolding resolve_action
resolve_action-conflict path none none base none pending = ground arith
resolve_action-conflict path none none base (some index) pending = ground arith
resolve_action-conflict path none (some remote) none index pending = ground arith
resolve_action-conflict path none (some remote) (some base) index pending = ground arith
resolve_action-conflict path (some here) none base none pending = ground arith
resolve_action-conflict path (some here) none base (some index) pending = ground arith
resolve_action-conflict path (some here) (some remote) none none pending = ground arith
resolve_action-conflict path (some here) (some remote) none (some index) pending = ground arith
resolve_action-conflict path (some here) (some remote) (some base) none pending = ground arith
resolve_action-conflict path (some here) (some remote) (some base) (some index) pending =
    ground arith
