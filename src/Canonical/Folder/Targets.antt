-- ===== src/Canonical/Folder/Targets.antt =====
-- The descendants that the deletion of a folder takes.
use obsidian_yandex_disk_syn.Common.{
  ℕ, suc, ◌+◌, ◌≡◌, sym, ap, ◌∙◌, subst, ◌↔◌, ◌⊎◌, inl, inr, Bool, true, not, ◌&&◌, List, [], ◌∷◌,
  ◌++◌, arith, if◌then◌else◌, truthy, ◌==◌, nat_eq, bool_eq, option_eq, list_eq, Bool-cases, length,
}
use obsidian_yandex_disk_syn.Common.Text.{Text, starts_with, trim_slashes}
use obsidian_yandex_disk_syn.Common.Dict.{Dict}
use native.Mathlib.Nat.{zero-add}
use mathlib.Core.List.{append-nil, append_assoc}
use obsidian_yandex_disk_syn.Common.Slashes.{starts_with-append, append-starts_with}
use obsidian_yandex_disk_syn.Types.{FileMetadata}
use obsidian_yandex_disk_syn.Canonical.Folder.{
  is_path_inside_folder, FolderDeleteTargets, collect_target, collect_targets_from,
  collect_folder_delete_targets,
}

inside_of_continues :
    (path folder rest : Text)
    → path ≡ trim_slashes folder ++ b'/' ∷ rest
    → is_path_inside_folder path folder ≡ true
unfolding is_path_inside_folder
inside_of_continues path folder rest e =
    let begins : starts_with path (trim_slashes folder ++ b'/' ∷ []) ≡ true =
      subst (λ p. starts_with p (trim_slashes folder ++ b'/' ∷ []) ≡ true)
        (append_assoc (trim_slashes folder) (b'/' ∷ []) rest ∙ sym e)
        (starts_with-append (trim_slashes folder ++ b'/' ∷ []) rest) in
    rw begins (ground arith)

-- A path lies in a folder exactly when it is the folder, trailing slashes aside, or continues it
-- after a slash.
pub is_path_inside_folder_iff :
    (path folder : Text)
    → (is_path_inside_folder path folder ≡ true) ↔ (
        (path ≡ trim_slashes folder)
        ⊎ ((rest : Text) × (path ≡ trim_slashes folder ++ b'/' ∷ rest)))
unfolding is_path_inside_folder
is_path_inside_folder_iff path folder = (
  λ h. elim (Bool-cases (starts_with path (trim_slashes folder ++ b'/' ∷ []))) [
    | inl begins ↦
        let (rest, e) = append-starts_with path _ begins in
        inr (rest, e ∙ append_assoc (trim_slashes folder) (b'/' ∷ []) rest)
    | inr other ↦ inl (ground arith)
  ],
  λ h. elim h [ inl e ↦ ground arith | inr (rest, e) ↦ inside_of_continues path folder rest e ],
)

-- A descendant of the folder, and not the folder itself.
abbrev pub is_below : Text → Text → Bool
is_below folder path = not (path == folder) && is_path_inside_folder path folder

-- The paths below the folder whose entry is live, and the number of the entries that are not.
abbrev pub live_below : Text → Dict Text FileMetadata → List Text
live_below folder [] = []
live_below folder ((path, m) ∷ files) =
    if is_below folder path && not (truthy m.deleted)
    then path ∷ live_below folder files
    else live_below folder files

abbrev pub dead_below : Text → Dict Text FileMetadata → ℕ
dead_below folder [] = 0
dead_below folder ((path, m) ∷ files) =
    if is_below folder path && truthy m.deleted
    then suc (dead_below folder files)
    else dead_below folder files

collect_targets_from_lem :
    (folder : Text) (t : FolderDeleteTargets) (files : Dict Text FileMetadata)
    → let r = collect_targets_from folder t files in
      (r.live_paths ≡ t.live_paths ++ live_below folder files)
      × (r.historical_tombstones_skipped
          ≡ t.historical_tombstones_skipped + dead_below folder files)
      × (r.known_descendants
          ≡ t.known_descendants + length (live_below folder files) + dead_below folder files)
unfolding collect_targets_from
collect_targets_from_lem folder t [] = (sym (append-nil _), omega arith, omega arith)
collect_targets_from_lem folder t ((path, m) ∷ files) =
    let (live, dead, known) =
      collect_targets_from_lem folder (collect_target folder t (path, m)) files in
    ground (arith, append_assoc t.live_paths (path ∷ []) (live_below folder files))

-- The deletion of a folder takes exactly the live entries below it, in the order of the index; it
-- counts the deleted ones, and the descendants that it knows are those two together.
pub collect_folder_delete_targets_lem :
    (files : Dict Text FileMetadata) (folder : Text)
    → let r = collect_folder_delete_targets files folder in
      (r.live_paths ≡ live_below (trim_slashes folder) files)
      × (r.historical_tombstones_skipped ≡ dead_below (trim_slashes folder) files)
      × (r.known_descendants ≡ length r.live_paths + r.historical_tombstones_skipped)
unfolding collect_folder_delete_targets
collect_folder_delete_targets_lem files folder =
    let (live, dead, known) =
      collect_targets_from_lem (trim_slashes folder)
        (record { known_descendants = 0; live_paths = []; historical_tombstones_skipped = 0 })
        files in
    (live, dead ∙ zero-add _, omega (arith, ap length live))
