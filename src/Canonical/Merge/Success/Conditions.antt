-- ===== src/Canonical/Merge/Success/Conditions.antt =====
-- What a device may ask of one entry in an ordinary merge.
use obsidian_yandex_disk_syn.Common.{
  ℕ, ◌≡◌, Bool, false, not, ◌&&◌, ◌||◌, Option, none, some, ltb, leb, if◌then◌else◌, get_or, ◌==◌,
  nat_eq, bool_eq, option_eq, list_eq,
}
use obsidian_yandex_disk_syn.Common.Text.{Text}
use obsidian_yandex_disk_syn.Common.Dict.{lookup}
use obsidian_yandex_disk_syn.Types.{
  FileMetadata, FolderTombstone, IndexMove, file_metadata_eq, folder_tombstone_eq, index_move_eq,
  index_maintenance_eq, epoch_adoption_eq,
}
use obsidian_yandex_disk_syn.Canonical.Merge.Context.{CanonicalMergeInput, Result, returned}
use obsidian_yandex_disk_syn.Canonical.Merge.Files.{is_metadata_refresh}
use obsidian_yandex_disk_syn.Canonical.Merge.InOrder.{clashes}

-- A sequence that the device has staged.
abbrev pub is_staged_by : CanonicalMergeInput → Text → Option ℕ → Bool
is_staged_by input device none = false
is_staged_by input device (some seq) =
    ltb 0 seq && leb seq (get_or (lookup device input.desired.applied_mutation_seq) 0)

-- The device left the file alone; or refreshed its server-owned fields over what is still there or
-- what it wants; or made a staged mutation whose sequence the latest entry does not carry.
abbrev pub is_mergeable_file : CanonicalMergeInput → Text → FileMetadata → Bool
is_mergeable_file input path desired =
    let baseline = lookup path input.loaded_base.files in
    let latest = lookup path input.latest.files in
    some desired == baseline
    || (if is_metadata_refresh desired baseline
        then latest == some desired || latest == baseline
        else is_staged_by input (get_or desired.last_modified_by input.device_id)
            desired.mutation_seq
          && not (clashes latest desired))

abbrev pub is_mergeable_tombstone : CanonicalMergeInput → Text → FolderTombstone → Bool
is_mergeable_tombstone input path tombstone =
    some tombstone == lookup path input.loaded_base.folder_tombstones
    || is_staged_by input tombstone.last_modified_by tombstone.mutation_seq

abbrev pub is_mergeable_move : CanonicalMergeInput → Text → IndexMove → Bool
is_mergeable_move input id move =
    some move == lookup id input.loaded_base.moves
    || is_staged_by input move.last_modified_by move.mutation_seq

abbrev pub Returns {ℓ} : {A : Type ℓ} → Result A → Type ℓ
Returns {A = A} r = (a : A) × (r ≡ returned a)
