-- ===== src/Reconciliation/Determine/Tombstoned.antt =====
-- A folder tombstone over a path: the deletion is applied to what did not change, and to nothing
-- else.
use obsidian_yandex_disk_syn.Common.{
  ◌≡◌, Bool, true, false, not, ◌&&◌, ◌||◌, Option, none, some, arith, is_some, nat_eq, bool_eq,
  option_eq, list_eq,
}
use obsidian_yandex_disk_syn.Common.Text.{Text}
use obsidian_yandex_disk_syn.Reconciliation.Operation.{
  SyncAction, delete_remote, delete_local, is_active,
}
use obsidian_yandex_disk_syn.Types.{FileMetadata, FolderTombstone}
use obsidian_yandex_disk_syn.Reconciliation.Determine.{
  is_edited, is_drifted, tombstone_applies, decide_operation,
}

abbrev pub is_delete : SyncAction → Bool
is_delete delete_local = true
is_delete delete_remote = true
is_delete _ = false

-- Under a tombstone that applies, a path with a file on either side is deleted exactly if neither
-- its local content differs from the baseline nor its physical file from the canonical entry; the
-- operation then names the tombstone.
pub decide_tombstoned_iff :
    (path : Text) (tombstone : FolderTombstone) (here remote base index : Option FileMetadata)
    (pending : Bool)
    → tombstone_applies (some tombstone) index ≡ true
    → (is_some here || is_some remote) ≡ true
    → let o = decide_operation path (some tombstone) here remote base index pending in
      (is_delete o.action ≡ (not (is_edited here base) && not (is_drifted remote index)))
      × (is_some o.folder_tombstone_path ≡ is_delete o.action)
      × (is_active o.action ≡ true)
unfolding decide_operation
decide_tombstoned_iff path tombstone none none base index pending h k = cc
decide_tombstoned_iff path tombstone none (some remote) base index pending h k = ground arith
decide_tombstoned_iff path tombstone (some here) none base index pending h k = ground arith
decide_tombstoned_iff path tombstone (some here) (some remote) base index pending h k = ground arith
