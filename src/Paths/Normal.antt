-- ===== src/Paths/Normal.antt =====
-- src/utils/path-utils.ts: normal paths, directories and ancestors.
use obsidian_yandex_disk_syn.Common.{
  ℕ, zero, suc, Bool, false, ◌&&◌, List, [], ◌∷◌, if◌then◌else◌, get_or, ◌==◌, nat_eq, bool_eq,
  option_eq, list_eq, length,
}
use obsidian_yandex_disk_syn.Common.Text.{Text, trim_slashes, cut_last}
use obsidian_yandex_disk_syn.Paths.Ancestry.{add_to_set}

-- `.replace(/\\/g, "/")`
abbrev forward_slashes : Text → Text
forward_slashes [] = []
forward_slashes (c ∷ s) = (if c == b'\\' then b'/' else c) ∷ forward_slashes s

-- `.replace(/^\/+/, "")`
abbrev drop_slashes : Text → Text
drop_slashes [] = []
drop_slashes (c ∷ s) = let rest = drop_slashes s in if c == b'/' then rest else c ∷ s

-- `.replace(/\/+/g, "/")`, with the unit before.
abbrev single_slashes : Bool → Text → Text
single_slashes after_slash [] = []
single_slashes after_slash (c ∷ s) =
    let rest = single_slashes (c == b'/') s in if after_slash && c == b'/' then rest else c ∷ rest

-- `normalizePath`
unfoldable pub normalize_path : Text → Text
normalize_path path = single_slashes false (trim_slashes (drop_slashes (forward_slashes path)))

-- `getDirectory`
unfoldable pub get_directory : Text → Text
unfolding normalize_path
get_directory path = get_or (cut_last b'/' (normalize_path path)) []

-- The loop of `getAncestorDirectories` over one path; a directory is shorter than its path.
unfoldable pub directories_from : ℕ → List Text → Text → List Text
directories_from zero directories directory = directories
directories_from (suc fuel) directories [] = directories
directories_from (suc fuel) directories (c ∷ s) =
    directories_from fuel (add_to_set (c ∷ s) directories) (get_directory (c ∷ s))

-- `getAncestorDirectories`
unfoldable pub get_ancestor_directories : List Text → List Text → List Text
unfolding directories_from get_directory
get_ancestor_directories directories [] = directories
get_ancestor_directories directories (path ∷ paths) =
    get_ancestor_directories (directories_from (suc (length path)) directories (get_directory path))
      paths
