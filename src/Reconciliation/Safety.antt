-- ===== src/Reconciliation/Safety.antt =====
-- What a reconciliation may overwrite, with and without a folder tombstone over the path.
use obsidian_yandex_disk_syn.Common.{
  ◌≡◌, ◌⊎◌, inl, inr, Bool, true, false, Option, none, some, arith, nat_eq, bool_eq, option_eq,
  list_eq, Bool-cases, Option-cases,
}
use obsidian_yandex_disk_syn.Common.Text.{Text}
use obsidian_yandex_disk_syn.Reconciliation.Operation.{SyncOperation, is_download, is_deleted}
use obsidian_yandex_disk_syn.Types.{FileMetadata, FolderTombstone}
use obsidian_yandex_disk_syn.Local.Baseline.{has_local_content_changed}
use obsidian_yandex_disk_syn.Reconciliation.Resolve.{same_sha}
use obsidian_yandex_disk_syn.Reconciliation.Determine.{
  is_drifted, tombstone_applies, decide_tombstoned, decide_operation,
}
use obsidian_yandex_disk_syn.Reconciliation.Resolve.Overwrites.{
  is_upload, Unedited, Unmoved, resolve_action-download, resolve_action-upload,
}

decide_tombstoned-download :
    (path : Text) (tombstone : Option FolderTombstone)
    (here remote base index : Option FileMetadata) (o : SyncOperation)
    → decide_tombstoned path tombstone here remote base index ≡ some o
    → is_download o.action ≡ true
    → Unedited here base
unfolding decide_tombstoned has_local_content_changed
decide_tombstoned-download path tombstone none remote base index o e h = tt
decide_tombstoned-download path none (some here) remote none index o e h = ground arith
decide_tombstoned-download path none (some here) remote (some base) index o e h = ground arith
decide_tombstoned-download path (some t) (some here) remote none index o e h = ground arith
decide_tombstoned-download path (some t) (some here) remote (some base) index o e h = ground arith

decide_tombstoned-upload :
    (path : Text) (tombstone : Option FolderTombstone)
    (here remote base index : Option FileMetadata) (o : SyncOperation)
    → decide_tombstoned path tombstone here remote base index ≡ some o
    → is_upload o.action ≡ true
    → (is_drifted remote index ≡ false) ⊎ (same_sha here remote ≡ true)
unfolding decide_tombstoned
decide_tombstoned-upload path none here remote base index o e h = ground arith
decide_tombstoned-upload path (some t) here remote base index o e h = ground arith

-- A download never replaces an unseen edit: whatever the tombstone over the path, if the decision
-- is a download then the local file is absent or holds the content of the device baseline.
pub decide_download-Unedited :
    (path : Text) (tombstone : Option FolderTombstone)
    (here remote base index : Option FileMetadata) (pending : Bool)
    → is_download (decide_operation path tombstone here remote base index pending).action ≡ true
    → Unedited here base
unfolding decide_operation
decide_download-Unedited path tombstone here remote base index pending h =
    elim (Bool-cases (tombstone_applies tombstone index)) [
      | inr off ↦ resolve_action-download path here remote base index pending (rw off at h)
      | inl applies ↦
          elim (Option-cases (decide_tombstoned path tombstone here remote base index)) [
            | inl e ↦
                resolve_action-download path here remote base index pending (rw (applies, e) at h)
            | inr (o, e) ↦
                decide_tombstoned-download path tombstone here remote base index o e
                  (rw (applies, e) at h)
          ]
    ]

-- An upload never replaces an unseen remote change: if the decision is an upload then the canonical
-- entry is a tombstone, or the physical file is absent, or the canonical entry has the content and
-- the liveness of the device baseline and describes the physical file; under a folder tombstone
-- that applies it may also be that no drift of the physical file is known, or that both files hold
-- the same content.
pub decide_upload-Unmoved :
    (path : Text) (tombstone : Option FolderTombstone)
    (here remote base index : Option FileMetadata) (pending : Bool)
    → is_upload (decide_operation path tombstone here remote base index pending).action ≡ true
    → (is_deleted index ≡ true)
      ⊎ (Unmoved remote base index
          ⊎ ((is_drifted remote index ≡ false) ⊎ (same_sha here remote ≡ true))
            × (tombstone_applies tombstone index ≡ true))
unfolding decide_operation
decide_upload-Unmoved path tombstone here remote base index pending h =
    elim (Bool-cases (tombstone_applies tombstone index)) [
      | inr off ↦
          ground (arith, resolve_action-upload path here remote base index pending (rw off at h))
      | inl applies ↦
          elim (Option-cases (decide_tombstoned path tombstone here remote base index)) [
            | inl e ↦ ground (
              arith,
              resolve_action-upload path here remote base index pending (rw (applies, e) at h),
            )
            | inr (o, e) ↦ inr (
                inr (
                  decide_tombstoned-upload path tombstone here remote base index o e
                      (rw (applies, e) at h),
                  applies,
                ))
          ]
    ]
