-- ===== src/Tests/Guards.antt =====
-- The guards of physical deletions and the baselines of a device, on concrete inputs.
use obsidian_yandex_disk_syn.Common.{
  ℕ, ◌≡◌, refl, true, false, Option, none, some, [], ◌∷◌, nat_eq, bool_eq, option_eq, list_eq, All,
  Bool, List,
}
use obsidian_yandex_disk_syn.Common.Text.{Text, codes}
use obsidian_yandex_disk_syn.Common.Dict.{lookup}
use obsidian_yandex_disk_syn.Paths.Normal.{get_ancestor_directories}
use obsidian_yandex_disk_syn.Files.Cover.{
  entries_by_path, add_directories, values, paths_of, plan_recursive_deletes,
}
use obsidian_yandex_disk_syn.Files.Cover.Safety.{IsSafe, Disjoint, plan_recursive_deletes-IsSafe}
use obsidian_yandex_disk_syn.Types.{
  RecursiveDeleteAction, DeleteKind, SyncIndex, PendingPhysicalAction, delete_remote, exact_delete,
  PendingMutation, YandexResource, put,
}
use obsidian_yandex_disk_syn.Files.Fingerprint.{get_stable_content_fingerprint}
use obsidian_yandex_disk_syn.Files.Actions.{
  authorized_by, is_physical_delete_authorized, HasNoLiveFile, is_physical_delete_authorized_safe,
}
use obsidian_yandex_disk_syn.Tests.Samples.{note, dead, laptop_note, empty_index}

abbrev with_deleted : SyncIndex
with_deleted = record empty_index { files = (note, dead laptop_note) ∷ [] }

abbrev delete_note : PendingPhysicalAction
delete_note = record {
  id = codes "i";
  type = delete_remote;
  epoch = some (codes "e");
  origin = exact_delete;
  path = note;
  target_path = none;
  parent_mutation_id = none;
  canonical_revision = 5;
  expected_fingerprint = some (codes "2");
  expected_changed_revision = some 5;
  expected_target_fingerprint = none;
  baseline_sha256 = none;
  created_at = 3;
}

delete_authorized : is_physical_delete_authorized delete_note with_deleted ≡ true
unfolding is_physical_delete_authorized authorized_by lookup nat_eq list_eq option_eq
delete_authorized = refl

is_physical_delete_authorized_safe_example :
    (some (codes "e") ≡ some with_deleted.epoch) × HasNoLiveFile with_deleted note
is_physical_delete_authorized_safe_example =
    is_physical_delete_authorized_safe delete_note with_deleted delete_authorized

abbrev on_disk : YandexResource
on_disk = record {
  path = note;
  modified = codes "m";
  size = some 3;
  md5 = some (codes "5");
  sha256 = some (codes "2");
  resource_id = none;
}

abbrev print_nothing : Option ℕ → Text
print_nothing _ = []

on_disk_fingerprint :
    get_stable_content_fingerprint print_nothing (some on_disk) ≡ some (codes "sha256:2")
unfolding get_stable_content_fingerprint
on_disk_fingerprint = refl

abbrev precedes_nothing : Text → Text → Bool
precedes_nothing _ _ = false

abbrev collapse_all : Text → Bool
collapse_all _ = true

abbrev removed_files : List RecursiveDeleteAction
removed_files =
    record { path = codes "d/a"; kind = DeleteKind.file }
    ∷ record { path = codes "d/b"; kind = DeleteKind.file }
    ∷ []

plan_recursive_deletes-IsSafe_example :
    let given = entries_by_path [] removed_files in
    let entries = values (add_directories given (get_ancestor_directories [] (paths_of given))) in
    let plan =
      plan_recursive_deletes precedes_nothing collapse_all removed_files
        (codes "d/a" ∷ codes "d/b" ∷ [])
        (codes "k" ∷ []) in
    All (IsSafe entries (codes "d/a" ∷ codes "d/b" ∷ []) (codes "k" ∷ [])) plan × Disjoint plan
plan_recursive_deletes-IsSafe_example =
    plan_recursive_deletes-IsSafe precedes_nothing collapse_all removed_files
      (codes "d/a" ∷ codes "d/b" ∷ []) (codes "k" ∷ [])

abbrev put_of : Text → Text → PendingMutation
put_of id sha = record {
  id = id;
  seq = 1;
  epoch = none;
  type = put;
  base_revision = none;
  path = note;
  target_path = none;
  resource_kind = none;
  sha256 = some sha;
  baseline_sha256 = none;
  created_at = 0;
}
