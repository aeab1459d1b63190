-- ===== src/Canonical/Folder.antt =====
-- src/sync/canonical/mutation-rules.ts: folders of the canonical index. Which paths lie in a
-- folder, which descendants its deletion takes, and which folder tombstone covers a path.
pub mod Targets
pub mod Tombstones
use obsidian_yandex_disk_syn.Common.{
  ℕ, zero, suc, ◌+◌, Bool, true, false, not, ◌&&◌, ◌||◌, Option, none, some, List, [], ◌∷◌, ◌++◌,
  ltb, if◌then◌else◌, truthy, ◌==◌, nat_eq, list_eq,
}
use obsidian_yandex_disk_syn.Common.Text.{Text, starts_with, trim_slashes, split_slash, join_slash}
use obsidian_yandex_disk_syn.Common.Dict.{Dict, lookup}
use obsidian_yandex_disk_syn.Types.{FileMetadata, FolderTombstone}

-- `isPathInsideFolder`
unfoldable pub is_path_inside_folder : Text → Text → Bool
is_path_inside_folder path folder =
    path == trim_slashes folder || starts_with path (trim_slashes folder ++ b'/' ∷ [])

pub record FolderDeleteTargets : Type 0 where
  pub known_descendants : ℕ
  pub live_paths : List Text
  pub historical_tombstones_skipped : ℕ

-- One round of the loop of `collectFolderDeleteTargets`.
unfoldable pub collect_target :
    Text → FolderDeleteTargets → Text × FileMetadata → FolderDeleteTargets
collect_target folder t (path, metadata) =
    if path == folder || not (is_path_inside_folder path folder)
    then t
    else if truthy metadata.deleted
    then record t {
      known_descendants = t.known_descendants + 1;
      historical_tombstones_skipped = t.historical_tombstones_skipped + 1;
    }
    else record t {
      known_descendants = t.known_descendants + 1;
      live_paths = t.live_paths ++ path ∷ [];
    }

unfoldable pub collect_targets_from :
    Text → FolderDeleteTargets → Dict Text FileMetadata → FolderDeleteTargets
unfolding collect_target
collect_targets_from folder t [] = t
collect_targets_from folder t (entry ∷ files) =
    collect_targets_from folder (collect_target folder t entry) files

-- `collectFolderDeleteTargets`
unfoldable pub collect_folder_delete_targets : Dict Text FileMetadata → Text → FolderDeleteTargets
unfolding collect_targets_from
collect_folder_delete_targets files folder =
    collect_targets_from (trim_slashes folder)
      (record { known_descendants = 0; live_paths = []; historical_tombstones_skipped = 0 }) files

-- `!result || tombstone.changedRevision > result.changedRevision`
unfoldable pub newer_tombstone :
    Option FolderTombstone → Option FolderTombstone → Option FolderTombstone
newer_tombstone result none = result
newer_tombstone none (some tombstone) = some tombstone
newer_tombstone (some result) (some tombstone) =
    if ltb result.changed_revision tombstone.changed_revision then some tombstone else some result

-- The loop of `findFolderTombstone`: `done` is `segments.slice(0, depth - 1)`.
unfoldable pub find_tombstone_from :
    Dict Text FolderTombstone
    → (done rest : List Text) → Option FolderTombstone
    → Option FolderTombstone
unfolding newer_tombstone
find_tombstone_from tombstones done [] result = result
find_tombstone_from tombstones done (segment ∷ []) result = result
find_tombstone_from tombstones done (segment ∷ next ∷ more) result =
    let here = done ++ segment ∷ [] in
    find_tombstone_from tombstones here (next ∷ more)
      (newer_tombstone result (lookup (join_slash here) tombstones))

-- `findFolderTombstone`
unfoldable pub find_folder_tombstone : Text → Dict Text FolderTombstone → Option FolderTombstone
unfolding find_tombstone_from
find_folder_tombstone path tombstones =
    find_tombstone_from tombstones [] (split_slash (trim_slashes path)) none
