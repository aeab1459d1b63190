-- ===== src/Canonical/Merge/Logs.antt =====
-- src/sync/canonical/merge.ts: the loops over folder tombstones, moves and watermarks.
use obsidian_yandex_disk_syn.Common.{
  ℕ, true, Option, none, some, List, [], ◌∷◌, ltb, leb, if◌then◌else◌, get_or, is_some, ◌==◌,
  nat_eq, bool_eq, option_eq, list_eq,
}
use obsidian_yandex_disk_syn.Common.Text.{Text, trim_slashes}
use obsidian_yandex_disk_syn.Common.Dict.{Dict, lookup, insert, erase}
use obsidian_yandex_disk_syn.Types.{
  FileMetadata, FolderTombstone, IndexMove, folder_tombstone_eq, index_move_eq,
}
use obsidian_yandex_disk_syn.Paths.Ancestry.{PathAncestryIndex, ancestry_index, descendants}
use obsidian_yandex_disk_syn.Canonical.Mutation.{should_preserve_concurrent_folder_child}
use obsidian_yandex_disk_syn.Canonical.Merge.Context.{
  CanonicalMergeInput, Progress, IndexSection, folder_tombstones, moves, required_sequence,
  beyond_watermark, invalid_current_index, Result, returned, thrown, throw_if, ◌>>=◌, ◌>>◌,
  next_revision,
}
use obsidian_yandex_disk_syn.Canonical.Merge.Files.{touch}

-- The two guards on the sequence of a new tombstone or move, and the sequence.
unfoldable pub require_sequence : CanonicalMergeInput → IndexSection → Text → Option ℕ → Result ℕ
require_sequence input section device none =
    thrown (invalid_current_index section required_sequence)
require_sequence input section device (some seq) = do
  throw_if (seq == 0) (invalid_current_index section required_sequence)
  throw_if (ltb (get_or (lookup device input.desired.applied_mutation_seq) 0) seq)
      (invalid_current_index section beyond_watermark)
  returned seq

-- One round of the loop over the files at and below a deleted folder.
unfoldable pub keep_child :
    CanonicalMergeInput → FolderTombstone → Dict Text FileMetadata → Text → Dict Text FileMetadata
unfolding touch
keep_child input tombstone files path = elim (lookup path files) [
  | none ↦ files
  | some current ↦
      if should_preserve_concurrent_folder_child current tombstone.base_revision
        (some tombstone.last_modified_by) tombstone.mutation_seq
      then insert path (touch input current) files
      else files
]

unfoldable pub keep_children :
    CanonicalMergeInput
    → FolderTombstone
    → Dict Text FileMetadata
    → List Text
    → Dict Text FileMetadata
unfolding keep_child
keep_children input tombstone files [] = files
keep_children input tombstone files (path ∷ paths) =
    keep_children input tombstone (keep_child input tombstone files path) paths

-- The stored form of a tombstone; its type makes `baseRevision` present.
unfoldable pub accepted_tombstone : CanonicalMergeInput → FolderTombstone → FolderTombstone
accepted_tombstone input tombstone = record tombstone {
  changed_revision = next_revision input;
  last_modified_by = input.device_id;
}

-- A new tombstone is stored, and the newer live children of its folder are marked as changed.
unfoldable pub store_tombstone :
    CanonicalMergeInput → PathAncestryIndex → Progress → Text → FolderTombstone → Progress
unfolding keep_children accepted_tombstone
store_tombstone input ancestry p path tombstone = record p {
  index = record (p.index) {
    folder_tombstones = insert path (accepted_tombstone input tombstone) p.index.folder_tombstones;
    files = keep_children input tombstone p.index.files (descendants ancestry (trim_slashes path));
  };
  changed = true;
}

-- One round of the loop over the desired tombstones.
unfoldable pub merge_tombstone :
    CanonicalMergeInput → PathAncestryIndex → Progress → Text × FolderTombstone → Result Progress
unfolding require_sequence store_tombstone
merge_tombstone input ancestry p (path, tombstone) =
    if some tombstone == lookup path input.loaded_base.folder_tombstones then returned p else do
      _ ← require_sequence input folder_tombstones tombstone.last_modified_by tombstone.mutation_seq
      returned (store_tombstone input ancestry p path tombstone)

unfoldable pub merge_tombstones :
    CanonicalMergeInput → PathAncestryIndex → Progress → Dict Text FolderTombstone → Result Progress
unfolding merge_tombstone
merge_tombstones input ancestry p [] = returned p
merge_tombstones input ancestry p (entry ∷ rest) = do
  next ← merge_tombstone input ancestry p entry
  merge_tombstones input ancestry next rest

abbrev pub keys {ℓ} : {V : Type ℓ} → Dict Text V → List Text
keys [] = []
keys ((k, _) ∷ d) = k ∷ keys d

-- The index of the paths is built once, from the files as they stand before the loop, and the
-- loop adds no path.
unfoldable pub merge_folders : CanonicalMergeInput → Progress → Result Progress
unfolding merge_tombstones
merge_folders input p =
    merge_tombstones input (ancestry_index [] (keys p.index.files)) p
      input.desired.folder_tombstones

-- One round of the loop over the desired moves.
unfoldable pub merge_move : CanonicalMergeInput → Progress → Text × IndexMove → Result Progress
unfolding require_sequence
merge_move input p (id, move) =
    if some move == lookup id input.loaded_base.moves then returned p else do
      _ ← require_sequence input moves move.last_modified_by move.mutation_seq
      returned (record p {
        index = record (p.index) {
          moves =
              insert id
                (record move {
                  changed_revision = next_revision input;
                  last_modified_by = input.device_id;
                })
                p.index.moves;
        };
        changed = true;
      })

unfoldable pub merge_moves : CanonicalMergeInput → Progress → Dict Text IndexMove → Result Progress
unfolding merge_move
merge_moves input p [] = returned p
merge_moves input p (entry ∷ rest) = do next ← merge_move input p entry; merge_moves input next rest

-- One round of the loop over the completed moves.
unfoldable pub complete_move : Progress → Text → Progress
complete_move p id =
    if is_some (lookup id p.index.moves)
    then record p { index = record (p.index) { moves = erase id p.index.moves }; changed = true }
    else p

unfoldable pub complete_moves : Progress → List Text → Progress
complete_moves p [] = p
complete_moves p (id ∷ ids) = complete_moves (complete_move p id) ids

-- One round of the loop over the desired watermarks.
unfoldable pub raise_watermark : Progress → Text × ℕ → Progress
raise_watermark p (device, sequence) =
    if leb sequence (get_or (lookup device p.index.applied_mutation_seq) 0) then p else record p {
      index = record (p.index) {
        applied_mutation_seq = insert device sequence p.index.applied_mutation_seq;
      };
      changed = true;
    }

unfoldable pub raise_watermarks : Progress → Dict Text ℕ → Progress
unfolding raise_watermark
raise_watermarks p [] = p
raise_watermarks p (entry ∷ rest) = raise_watermarks (raise_watermark p entry) rest
