-- ===== src/Local/Baseline/Confirmed.antt =====
-- What a confirmed baseline answers to the tests that later compare with it, and what a physical
-- refresh leaves alone.
use obsidian_yandex_disk_syn.Common.{
  ◌≡◌, ◌↔◌, false, ◌||◌, none, some, arith, if◌then◌else◌, is_some, nat_eq, bool_eq, option_eq,
  list_eq,
}
use obsidian_yandex_disk_syn.Types.{FileMetadata}
use obsidian_yandex_disk_syn.Local.Baseline.{
  has_local_content_changed, has_canonical_metadata_changed, get_remote_physical_drift,
  create_confirmed_baseline, merge_physical_metadata,
}

-- Against the baseline that was just confirmed the local content has not changed, and the remote
-- copy has no known drift; the drift is unknown only if the remote copy carries neither a
-- fingerprint nor a modification time. The canonical entry counts as unchanged exactly when it is
-- marked as not deleted and holds the local content.
pub create_confirmed_baseline_lem :
    (here remote canonical : FileMetadata)
    → let baseline = create_confirmed_baseline here remote (some canonical) in
      (has_local_content_changed here (some baseline) ≡ false)
      × (get_remote_physical_drift remote (some baseline) ≡ (
          if is_some remote.remote_fingerprint || is_some remote.remote_mtime
          then some false
          else none))
      × ((has_canonical_metadata_changed (some canonical) baseline ≡ false)
          ↔ ((canonical.deleted ≡ some false) × (canonical.sha256 ≡ here.sha256)))
unfolding has_local_content_changed has_canonical_metadata_changed get_remote_physical_drift
    create_confirmed_baseline
create_confirmed_baseline_lem here remote canonical =
    (ground arith, ground arith, (λ h. ground arith, λ h. ground arith))

-- A physical refresh goes through exactly when the entry is logically what the device last
-- observed; it then takes the two physical fields of the new state and keeps all others.
pub merge_physical_metadata_iff :
    (current baseline desired m : FileMetadata)
    → (merge_physical_metadata (some current) (some baseline) desired ≡ some m) ↔ (
        (current.deleted ≡ baseline.deleted)
        × (current.sha256 ≡ baseline.sha256)
        × (current.changed_revision ≡ baseline.changed_revision)
        × (m ≡ record current {
          remote_mtime = desired.remote_mtime;
          remote_fingerprint = desired.remote_fingerprint;
        }))
unfolding merge_physical_metadata
merge_physical_metadata_iff current baseline desired m = (λ h. ground arith, λ h. ground arith)
