-- ===== src/Tests/Folder.antt =====
-- Folders.
use obsidian_yandex_disk_syn.Common.{
  ℕ, ◌≤◌, ◌≡◌, refl, some, [], ◌∷◌, nat_eq, bool_eq, option_eq, list_eq, has, ◌&&◌,
}
use obsidian_yandex_disk_syn.Common.Text.{Text, codes, trim_slashes, split_slash, join_slash}
use obsidian_yandex_disk_syn.Common.Dict.{Dict, lookup}
use obsidian_yandex_disk_syn.Types.{FileMetadata, FolderTombstone}
use obsidian_yandex_disk_syn.Paths.Ancestry.{ancestry_index, descendants}
use obsidian_yandex_disk_syn.Paths.Ancestry.Answers.{at_or_below, ancestry_index_lem}
use obsidian_yandex_disk_syn.Canonical.Folder.{
  is_path_inside_folder, collect_folder_delete_targets, find_folder_tombstone,
}
use obsidian_yandex_disk_syn.Canonical.Folder.Tombstones.{age, find_folder_tombstone_newest}
use obsidian_yandex_disk_syn.Tests.Samples.{note, laptop, old_note, dead}

abbrev tombstone : Text → ℕ → FolderTombstone
tombstone path revision = record {
  path = path;
  deleted_at = 9;
  changed_revision = revision;
  base_revision = 1;
  last_modified_by = laptop;
  mutation_seq = some 4;
}

abbrev tombstones : Dict Text FolderTombstone
tombstones = (codes "n", tombstone (codes "n") 7) ∷ (codes "x", tombstone (codes "x") 9) ∷ []

found_note : find_folder_tombstone note tombstones ≡ some (tombstone (codes "n") 7)
unfolding find_folder_tombstone trim_slashes split_slash join_slash lookup nat_eq list_eq
found_note = refl

abbrev some_files : Dict Text FileMetadata
some_files = (note, old_note) ∷ (codes "n/b", dead old_note) ∷ (codes "c", old_note) ∷ []

targets_of_notes : (collect_folder_delete_targets some_files (codes "n/")).live_paths ≡ note ∷ []
unfolding collect_folder_delete_targets is_path_inside_folder trim_slashes nat_eq list_eq
targets_of_notes = refl

find_folder_tombstone_newest_example :
    age (lookup (codes "n") tombstones) ≤ age (find_folder_tombstone note tombstones)
unfolding trim_slashes nat_eq
find_folder_tombstone_newest_example =
    find_folder_tombstone_newest note tombstones (codes "n") (codes "a", refl)

ancestry_index_lem_example :
    has (descendants (ancestry_index [] (note ∷ codes "n" ∷ codes "m" ∷ [])) (codes "n")) note
    ≡ (has (note ∷ codes "n" ∷ codes "m" ∷ []) note && at_or_below (codes "n") note)
ancestry_index_lem_example = ancestry_index_lem (note ∷ codes "n" ∷ codes "m" ∷ []) (codes "n") note
