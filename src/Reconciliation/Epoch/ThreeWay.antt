-- ===== src/Reconciliation/Epoch/ThreeWay.antt =====
-- The adoption of an epoch as a three-way merge: what each side did to the baseline decides.
use obsidian_yandex_disk_syn.Common.{
  ◌≡◌, false, Option, none, some, arith, if◌then◌else◌, truthy, ◌==◌, nat_eq, bool_eq, option_eq,
  list_eq,
}
use obsidian_yandex_disk_syn.Common.Text.{Text}
use obsidian_yandex_disk_syn.Reconciliation.Operation.{
  SyncAction, upload, download, delete_remote, delete_local, conflict, keep,
}
use obsidian_yandex_disk_syn.Types.{FileMetadata}
use obsidian_yandex_disk_syn.Reconciliation.Epoch.{live_remote, has_physical_changed, adopt}

-- What a side did to the path since the baseline.
pub data Change : Type 0 where
  kept edited removed : Change

-- The content of a live baseline.
unfoldable pub content : Option FileMetadata → Option Text
content none = none
content (some base) = if truthy base.deleted then none else some base.sha256

unfoldable pub hash : Option FileMetadata → Option Text
hash none = none
hash (some m) = some m.sha256

unfoldable pub change_of : (base side : Option Text) → Change
change_of none none = kept
change_of none (some b) = edited
change_of (some a) none = removed
change_of (some a) (some b) = if a == b then kept else edited

-- The merge that the source describes: one-sided changes are taken over, a restored content
-- survives a deletion, a local deletion survives a remote edit, and two edits are a conflict.
unfoldable pub three_way : Change → Change → SyncAction
three_way kept kept = keep
three_way kept edited = download
three_way kept removed = delete_local
three_way edited kept = upload
three_way edited edited = conflict
three_way edited removed = upload
three_way removed kept = delete_remote
three_way removed edited = delete_remote
three_way removed removed = keep

-- Two sides that hold the same content have nothing to merge.
unfoldable pub merged : (base here remote : Option Text) → SyncAction
unfolding change_of three_way
merged base here remote =
    if here == remote then keep else three_way (change_of base here) (change_of base remote)

-- Where the physical file is the one that the canonical entry of the new epoch describes, the
-- decision refines the three-way merge: for all four states of a path, its action is what the
-- table gives for what each side did to the content of a live baseline, and nothing where both
-- sides hold the same content.
pub adopt-eq-merged :
    (path : Text) (here physical base index : Option FileMetadata)
    → has_physical_changed (live_remote physical index) physical index ≡ false
    → (adopt path here physical base index).action
      ≡ merged (content base) (hash here) (hash (live_remote physical index))
unfolding adopt merged content hash
adopt-eq-merged path none none none none h = ground arith
adopt-eq-merged path none none none (some index) h = ground arith
adopt-eq-merged path none none (some base) none h = ground arith
adopt-eq-merged path none none (some base) (some index) h = ground arith
adopt-eq-merged path none (some physical) none none h = ground arith
adopt-eq-merged path none (some physical) none (some index) h = ground arith
adopt-eq-merged path none (some physical) (some base) none h = ground arith
adopt-eq-merged path none (some physical) (some base) (some index) h = ground arith
adopt-eq-merged path (some here) none none none h = ground arith
adopt-eq-merged path (some here) none none (some index) h = ground arith
adopt-eq-merged path (some here) none (some base) none h = ground arith
adopt-eq-merged path (some here) none (some base) (some index) h = ground arith
adopt-eq-merged path (some here) (some physical) none none h = ground arith
adopt-eq-merged path (some here) (some physical) none (some index) h = ground arith
adopt-eq-merged path (some here) (some physical) (some base) none h = ground arith
adopt-eq-merged path (some here) (some physical) (some base) (some index) h = ground arith
