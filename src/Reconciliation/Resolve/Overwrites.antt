-- ===== src/Reconciliation/Resolve/Overwrites.antt =====
-- A reconciliation never writes over a change that it has not seen: a download replaces no local
-- edit, and an upload no remote change.
use obsidian_yandex_disk_syn.Common.{
  ◌≡◌, ◌⊎◌, inr, Bool, true, false, Option, none, some, arith, nat_eq, bool_eq, option_eq, list_eq,
}
use obsidian_yandex_disk_syn.Common.Text.{Text}
use obsidian_yandex_disk_syn.Reconciliation.Operation.{SyncAction, upload, is_download, is_deleted}
use obsidian_yandex_disk_syn.Types.{FileMetadata}
use obsidian_yandex_disk_syn.Local.Baseline.{
  has_local_content_changed, has_canonical_metadata_changed,
}
use obsidian_yandex_disk_syn.Reconciliation.Resolve.{has_physical_remote_drift, resolve_action}

abbrev pub is_upload : SyncAction → Bool
is_upload upload = true
is_upload _ = false

-- The local file is absent, or holds what the device last confirmed for the path.
abbrev pub Unedited : (here base : Option FileMetadata) → Type 0
Unedited none base = Unit
Unedited (some here) none = ⊥
Unedited (some here) (some base) = here.sha256 ≡ base.sha256

-- The physical file is absent, or the canonical entry is what the device confirmed and describes
-- the physical file.
abbrev pub Unmoved : (remote base index : Option FileMetadata) → Type 0
Unmoved none base index = Unit
Unmoved (some remote) none index = ⊥
Unmoved (some remote) (some base) none = ⊥
Unmoved (some remote) (some base) (some index) =
    (index.sha256 ≡ base.sha256)
    × (index.deleted ≡ base.deleted)
    × (has_physical_remote_drift remote (some index) ≡ false)

pub resolve_action-download :
    (path : Text) (here remote base index : Option FileMetadata) (pending : Bool)
    → is_download (resolve_action path here remote base index pending).action ≡ true
    → Unedited here base
unfolding resolve_action has_local_content_changed
resolve_action-download path none none base none pending h = ground arith
resolve_action-download path none none base (some index) pending h = ground arith
resolve_action-download path none (some remote) base index pending h = tt
resolve_action-download path (some here) none none none pending h = ground arith
resolve_action-download path (some here) none none (some index) pending h = ground arith
resolve_action-download path (some here) none (some base) none pending h = ground arith
resolve_action-download path (some here) none (some base) (some index) pending h = ground arith
resolve_action-download path (some here) (some remote) none none pending h = ground arith
resolve_action-download path (some here) (some remote) none (some index) pending h = ground arith
resolve_action-download path (some here) (some remote) (some base) none pending h = ground arith
resolve_action-download path (some here) (some remote) (some base) (some index) pending h =
    ground arith

pub resolve_action-upload :
    (path : Text) (here remote base index : Option FileMetadata) (pending : Bool)
    → is_upload (resolve_action path here remote base index pending).action ≡ true
    → (is_deleted index ≡ true) ⊎ Unmoved remote base index
unfolding resolve_action has_canonical_metadata_changed
resolve_action-upload path here none base index pending h = inr tt
resolve_action-upload path none (some remote) none index pending h = ground arith
resolve_action-upload path none (some remote) (some base) none pending h = ground arith
resolve_action-upload path none (some remote) (some base) (some index) pending h = ground arith
resolve_action-upload path (some here) (some remote) none none pending h = ground arith
resolve_action-upload path (some here) (some remote) none (some index) pending h = ground arith
resolve_action-upload path (some here) (some remote) (some base) none pending h = ground arith
resolve_action-upload path (some here) (some remote) (some base) (some index) pending h =
    ground arith
