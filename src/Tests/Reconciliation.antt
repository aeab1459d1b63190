-- ===== src/Tests/Reconciliation.antt =====
-- Decisions of a reconciliation at concrete states.
use obsidian_yandex_disk_syn.Common.{
  ◌||◌, ◌!=◌, ◌≡◌, refl, ◌⊎◌, true, false, not, ◌&&◌, ◌||◌, none, some, [], ◌∷◌, arith, is_some,
  nat_eq, bool_eq, option_eq, list_eq,
}
use obsidian_yandex_disk_syn.Common.Text.{codes}
use obsidian_yandex_disk_syn.Common.Dict.{lookup}
use obsidian_yandex_disk_syn.Reconciliation.Operation.{is_active, is_download, is_deleted}
use obsidian_yandex_disk_syn.Types.{FileMetadata, FolderTombstone, SyncIndex, file_metadata_eq}
use obsidian_yandex_disk_syn.Local.Baseline.{
  has_local_content_changed, has_canonical_metadata_changed, get_remote_physical_drift,
}
use obsidian_yandex_disk_syn.Reconciliation.Resolve.{same_sha, resolve_action}
use obsidian_yandex_disk_syn.Local.Observed.{LocalSyncState, mark_remote_observed, observed_entry}
use obsidian_yandex_disk_syn.Reconciliation.Resolve.Deletions.{
  is_tombstoned, is_confirming, has_vanished, is_delete_local, resolve_action-delete_local,
  is_conflict, is_conflicting, resolve_action-conflict,
}
use obsidian_yandex_disk_syn.Reconciliation.Resolve.Overwrites.{is_upload, Unedited, Unmoved}
use obsidian_yandex_disk_syn.Reconciliation.Resolve.Settled.{
  next_action, resolve_action-mark_remote_observed,
}
use obsidian_yandex_disk_syn.Reconciliation.Determine.{
  Sources, decide_operation, determine_operations, tombstone_applies, is_edited, is_drifted,
}
use obsidian_yandex_disk_syn.Reconciliation.Determine.Pointwise.{
  operations_at, decided, determine_operations_pointwise,
}
use obsidian_yandex_disk_syn.Reconciliation.Determine.Tombstoned.{is_delete, decide_tombstoned_iff}
use obsidian_yandex_disk_syn.Reconciliation.Safety.{decide_download-Unedited, decide_upload-Unmoved}
use obsidian_yandex_disk_syn.Reconciliation.Epoch.{adopt, live_remote, has_physical_changed}
use obsidian_yandex_disk_syn.Reconciliation.Epoch.ThreeWay.{content, hash, merged, adopt-eq-merged}
use obsidian_yandex_disk_syn.Reconciliation.Epoch.Edits.{
  takes_local, takes_remote, adopt_keeps_edits,
}
use obsidian_yandex_disk_syn.Tests.Samples.{
  phone, laptop, note, old_note, laptop_note, phone_note, empty_index, dead,
}

-- A ciphertext whose server identity is that of the entry.
abbrev cipher : FileMetadata → FileMetadata
cipher m = record m { sha256 = codes "c" }

abbrev folder : FolderTombstone
folder = record {
  path = codes "n";
  deleted_at = 20;
  changed_revision = 9;
  base_revision = 8;
  last_modified_by = laptop;
  mutation_seq = some 3;
}

resolve_action-delete_local_example :
    is_delete_local
      (resolve_action note (some old_note) none (some old_note) (some (dead old_note)) false).action
    ≡ (is_tombstoned (some old_note) (some old_note) (some (dead old_note)) false
        || is_confirming (some old_note) none (some old_note) (some (dead old_note))
        || has_vanished (some old_note) none (some (dead old_note)))
resolve_action-delete_local_example =
    resolve_action-delete_local note (some old_note) none (some old_note) (some (dead old_note))
      false

resolve_action-conflict_example :
    is_conflict
      (resolve_action note
        (some phone_note)
        (some laptop_note)
        (some old_note)
        (some laptop_note)
        false).action
    ≡ is_conflicting (some phone_note) (some laptop_note) (some old_note) (some laptop_note)
resolve_action-conflict_example =
    resolve_action-conflict note (some phone_note) (some laptop_note) (some old_note)
      (some laptop_note) false

-- The phone's note is unchanged and the laptop's is new: a download.
remote_edit :
    is_download
      (decide_operation note none
        (some old_note)
        (some laptop_note)
        (some old_note)
        (some laptop_note)
        false).action
    ≡ true
unfolding decide_operation resolve_action has_local_content_changed has_canonical_metadata_changed
    get_remote_physical_drift nat_eq bool_eq list_eq option_eq
remote_edit = refl

decide_download-Unedited_example : Unedited (some old_note) (some old_note)
decide_download-Unedited_example =
    decide_download-Unedited note none (some old_note) (some laptop_note) (some old_note)
      (some laptop_note) false remote_edit

local_edit :
    is_upload
      (decide_operation note none
        (some phone_note)
        (some old_note)
        (some old_note)
        (some old_note)
        false).action
    ≡ true
unfolding decide_operation resolve_action has_local_content_changed has_canonical_metadata_changed
    get_remote_physical_drift nat_eq bool_eq list_eq option_eq
local_edit = refl

decide_upload-Unmoved_example :
    (is_deleted (some old_note) ≡ true)
    ⊎ (Unmoved (some old_note) (some old_note) (some old_note)
        ⊎ ((is_drifted (some old_note) (some old_note) ≡ false)
            ⊎ (same_sha (some phone_note) (some old_note) ≡ true))
          × (tombstone_applies none (some old_note) ≡ true))
decide_upload-Unmoved_example =
    decide_upload-Unmoved note none (some phone_note) (some old_note) (some old_note)
      (some old_note) false local_edit

folder_applies : tombstone_applies (some folder) (some old_note) ≡ true
unfolding tombstone_applies
folder_applies = refl

decide_tombstoned_iff_example :
    let o =
      decide_operation note
        (some folder)
        (some phone_note)
        (some old_note)
        (some old_note)
        (some old_note)
        false in
    (is_delete o.action ≡ (
      not (is_edited (some phone_note) (some old_note))
      && not (is_drifted (some old_note) (some old_note))))
    × (is_some o.folder_tombstone_path ≡ is_delete o.action)
    × (is_active o.action ≡ true)
decide_tombstoned_iff_example =
    decide_tombstoned_iff note folder (some phone_note) (some old_note) (some old_note)
      (some old_note) false folder_applies refl

abbrev here_and_there : Sources
here_and_there = record {
  local_files = (note, phone_note) ∷ (codes "b", old_note) ∷ [];
  remote_files = (note, old_note) ∷ [];
  local_index = (note, old_note) ∷ [];
  remote_index = (note, old_note) ∷ [];
  folder_tombstones = [];
  pending_local_deletes = [];
}

determine_operations_pointwise_example :
    operations_at note (determine_operations here_and_there) ≡ decided here_and_there note
determine_operations_pointwise_example = determine_operations_pointwise here_and_there note

no_drift :
    has_physical_changed
      (live_remote (some old_note) (some old_note))
      (some old_note)
      (some old_note)
    ≡ false
unfolding has_physical_changed live_remote get_remote_physical_drift nat_eq list_eq option_eq
no_drift = refl

adopt-eq-merged_example :
    (adopt note (some phone_note) (some old_note) (some old_note) (some old_note)).action
    ≡ merged
        (content (some old_note))
        (hash (some phone_note))
        (hash (live_remote (some old_note) (some old_note)))
adopt-eq-merged_example =
    adopt-eq-merged note (some phone_note) (some old_note) (some old_note) (some old_note) no_drift

adopt_keeps_edits_example :
    let action =
      (adopt note (some phone_note) (some laptop_note) (some old_note) (some laptop_note)).action in
    let remote = hash (live_remote (some laptop_note) (some laptop_note)) in
    let here = hash (some phone_note) in
    let base = content (some old_note) in
    ((takes_local action && here != base) ≡ false)
    × ((not (is_active action) && here != base && here != remote) ≡ false)
    × ((takes_remote action
          && is_some remote
          && remote != base
          && remote != here
          && (is_some (some phone_note) || not (is_some base)))
        ≡ false)
adopt_keeps_edits_example =
    adopt_keeps_edits note (some phone_note) (some laptop_note) (some old_note) (some laptop_note)

abbrev applied : SyncIndex
applied = record empty_index { revision = 5; files = (note, laptop_note) ∷ [] }

abbrev fresh : LocalSyncState
fresh = record {
  replacement_receive = none;
  remote_scope = none;
  device_id = phone;
  observed_epoch = none;
  observed_revision = 0;
  last_sync_time = 0;
  files = (note, old_note) ∷ [];
  folder_tombstones = [];
  next_mutation_seq = 1;
}

applied_note : lookup note applied.files ≡ some laptop_note
unfolding lookup nat_eq list_eq
applied_note = refl

observed_note :
    lookup note (mark_remote_observed none applied 1 30 fresh).files
    ≡ some (observed_entry old_note (some laptop_note))
unfolding mark_remote_observed lookup nat_eq list_eq option_eq
observed_note = refl

resolve_action-mark_remote_observed_example :
    (resolve_action note
      (some phone_note)
      (some (cipher laptop_note))
      (lookup note (mark_remote_observed none applied 1 30 fresh).files)
      (some laptop_note)
      false).action
    ≡ next_action laptop_note.sha256 phone_note.sha256 laptop_note.sha256
resolve_action-mark_remote_observed_example =
    resolve_action-mark_remote_observed none applied 1 30 fresh note laptop_note _ laptop_note
      phone_note (cipher laptop_note) false applied_note observed_note (refl, refl, refl) refl refl
      (λ h. ground arith)
