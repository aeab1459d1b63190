-- ===== src/Canonical/Merge/Authority.antt =====
-- src/sync/canonical/merge.ts: the guards on maintenance and on the encryption receipt, and the
-- mode "target-recovery".
use obsidian_yandex_disk_syn.Common.{
  Bool, true, false, not, ◌&&◌, ◌||◌, Option, none, some, List, [], ◌∷◌, if◌then◌else◌, is_some,
  ◌==◌, ◌!=◌, nat_eq, bool_eq, option_eq, list_eq,
}
use obsidian_yandex_disk_syn.Common.Text.{Text}
use obsidian_yandex_disk_syn.Common.Dict.{Dict, lookup, insert}
use obsidian_yandex_disk_syn.Types.{
  FileMetadata, IndexMaintenance, EncryptionEpochAdoption, prepared, index_maintenance_eq,
  epoch_adoption_eq, file_metadata_eq, transition_phase_eq,
}
use obsidian_yandex_disk_syn.Local.Baseline.{merge_physical_metadata}
use obsidian_yandex_disk_syn.Canonical.Merge.Replacement.{replacement_of}
use obsidian_yandex_disk_syn.Canonical.Merge.Context.{
  CanonicalMergeInput, Progress, concurrent_modification, maintenance_changed,
  receipt_authority_changed, recovery_authority_changed, recovery_target_changed,
  revision_before_ownership, Result, returned, thrown, throw_if, ◌>>=◌, ◌>>◌, next_revision,
  is_target_recovery_index, did_canonical_change_before_maintenance_claim,
}

-- `const merged = cloneIndex(latest)` and the other variables.
unfoldable pub start : CanonicalMergeInput → Progress
start input = record { index = input.latest; changed = false; rejected_puts = []; diagnostics = [] }

-- The first guard: a maintenance that the device has loaded must still be there unchanged.
unfoldable pub check_maintenance : CanonicalMergeInput → Result (Unit {0})
check_maintenance input =
    throw_if
      (is_some input.loaded_base.maintenance
        && input.loaded_base.maintenance != input.latest.maintenance)
      (concurrent_modification maintenance_changed)

abbrev without_paths : EncryptionEpochAdoption → EncryptionEpochAdoption
without_paths receipt = record receipt { preserved_raw_paths = [] }

-- `sameValue({ ...receipt, preservedRawPaths: [] }, { ...latest.epochAdoption, … })`
abbrev same_receipt : EncryptionEpochAdoption → Option EncryptionEpochAdoption → Bool
same_receipt receipt none = false
same_receipt receipt (some known) = without_paths receipt == without_paths known

-- `desiredMaintenance?.replacement?.preservedRawPaths`
abbrev preserved_paths : Option IndexMaintenance → Option (List Text)
preserved_paths m = elim (replacement_of m) [
  | none ↦ none
  | some (_, r) ↦ some r.preserved_raw_paths
]

abbrev has_replacement_id : Option IndexMaintenance → Text → Bool
has_replacement_id m id = elim (replacement_of m) [ none ↦ false | some (a, _) ↦ a.id == id ]

unfoldable pub accepts_receipt : CanonicalMergeInput → EncryptionEpochAdoption → Bool
accepts_receipt input receipt =
    has_replacement_id input.latest.maintenance receipt.operation_id
    && same_receipt receipt input.latest.epoch_adoption
    && some receipt.preserved_raw_paths == preserved_paths input.desired.maintenance

-- The second guard: the receipt of an encryption replacement may only be completed.
unfoldable pub adopt_receipt : CanonicalMergeInput → Progress → Result Progress
unfolding accepts_receipt
adopt_receipt input p =
    if input.desired.epoch_adoption == input.latest.epoch_adoption
    then returned p
    else elim input.desired.epoch_adoption [
      | none ↦ thrown (concurrent_modification receipt_authority_changed)
      | some receipt ↦
          if accepts_receipt input receipt
          then returned (record p {
            index = record (p.index) { epoch_adoption = some receipt };
            changed = true;
          })
          else thrown (concurrent_modification receipt_authority_changed)
    ]

abbrev has_other_id : Option IndexMaintenance → Text → Bool
has_other_id none id = false
has_other_id (some m) id = m.id != id

unfoldable pub put_file : Progress → Text → FileMetadata → Progress
put_file p path meta = record p {
  index = record (p.index) { files = insert path meta p.index.files };
  changed = true;
}

-- One round of the loop of the target recovery.
unfoldable pub recover_file : CanonicalMergeInput → Progress → Text × FileMetadata → Result Progress
unfolding put_file
recover_file input p (path, desired) =
    if some desired == lookup path input.loaded_base.files
    then returned p
    else elim (merge_physical_metadata (lookup path input.latest.files)
        (lookup path input.loaded_base.files) desired) [
          | none ↦ thrown (concurrent_modification recovery_target_changed)
          | some physical ↦ returned (put_file p path physical)
        ]

unfoldable pub recover_files :
    CanonicalMergeInput → Progress → Dict Text FileMetadata → Result Progress
unfolding recover_file
recover_files input p [] = returned p
recover_files input p (entry ∷ rest) = do
  next ← recover_file input p entry
  recover_files input next rest

unfoldable pub set_maintenance : Progress → Option IndexMaintenance → Progress
set_maintenance p m = record p { index = record (p.index) { maintenance = m }; changed = true }

-- `merged.revision = changed ? nextRevision : latest.revision`
unfoldable pub close : CanonicalMergeInput → Progress → Progress
close input p = record p {
  index = record (p.index) {
    revision = if p.changed then next_revision input else input.latest.revision;
  };
}

-- The physical fields of a replacement target are recovered; other targets have none.
unfoldable pub recover_target : CanonicalMergeInput → Progress → Result Progress
recover_target input p =
    if is_some (replacement_of input.latest.maintenance)
    then recover_files input p input.desired.files
    else returned p

unfoldable pub settle_recovery : CanonicalMergeInput → Progress → Progress
unfolding set_maintenance
settle_recovery input p =
    if input.desired.maintenance == input.latest.maintenance
    then p
    else set_maintenance p input.desired.maintenance

-- The guards of the mode "target-recovery".
unfoldable pub check_recovery : CanonicalMergeInput → Text → Result (Unit {0})
check_recovery input id =
    throw_if
      (not (is_target_recovery_index input.latest id)
        || input.latest.epoch != input.loaded_base.epoch
        || has_other_id input.desired.maintenance id)
      (concurrent_modification recovery_authority_changed)

-- The mode "target-recovery".
unfoldable pub merge_target_recovery : CanonicalMergeInput → Text → Progress → Result Progress
merge_target_recovery input id p = do
  check_recovery input id
  q ← recover_target input p
  returned (close input (settle_recovery input q))

abbrev pub claims_ownership : Option IndexMaintenance → Option IndexMaintenance → Bool
claims_ownership none base = false
claims_ownership (some m) base = m.phase == prepared && some m != base

-- The guard of an encryption transition that takes the ownership.
unfoldable pub check_ownership : CanonicalMergeInput → Result (Unit {0})
check_ownership input =
    throw_if
      (claims_ownership input.desired.maintenance input.loaded_base.maintenance
        && did_canonical_change_before_maintenance_claim input.loaded_base.revision
            input.latest.revision)
      (concurrent_modification revision_before_ownership)
