-- ===== src/Canonical/Merge/Success/Logs.antt =====
-- The loops over the desired tombstones and moves return.
use obsidian_yandex_disk_syn.Common.{
  ℕ, ◌≤◌, ◌<◌, ◌≡◌, refl, inl, inr, true, Option, none, some, [], ◌∷◌, arith, get_or, ◌==◌, nat_eq,
  bool_eq, option_eq, list_eq, Bool-cases,
}
use obsidian_yandex_disk_syn.Common.Text.{Text}
use obsidian_yandex_disk_syn.Common.Dict.{Dict, lookup, insert}
use obsidian_yandex_disk_syn.Types.{
  FolderTombstone, IndexMove, file_metadata_eq, folder_tombstone_eq, index_move_eq,
  index_maintenance_eq, epoch_adoption_eq,
}
use obsidian_yandex_disk_syn.Paths.Ancestry.{PathAncestryIndex}
use obsidian_yandex_disk_syn.Canonical.Merge.Context.{
  CanonicalMergeInput, Progress, returned, next_revision, IndexSection, folder_tombstones, moves,
}
use obsidian_yandex_disk_syn.Canonical.Merge.Logs.{
  require_sequence, store_tombstone, merge_tombstone, merge_tombstones, merge_move, merge_moves,
}
use obsidian_yandex_disk_syn.Canonical.Merge.Success.Conditions.{
  is_staged_by, is_mergeable_tombstone, is_mergeable_move, Returns,
}

module _ (input : CanonicalMergeInput) where
  require_sequence_staged :
      (section : IndexSection) (device : Text) (seq : ℕ)
      → 0 < seq
      → seq ≤ get_or (lookup device input.desired.applied_mutation_seq) 0
      → require_sequence input section device (some seq) ≡ returned seq
  unfolding require_sequence
  require_sequence_staged section device seq p l = ground arith

  require_sequence-Returns :
      (section : IndexSection) (device : Text) (seq : Option ℕ)
      → is_staged_by input device seq ≡ true
      → Returns (require_sequence input section device seq)
  unfolding require_sequence
  require_sequence-Returns section device none s = absurd (cc)
  require_sequence-Returns section device (some seq) s =
      (seq, require_sequence_staged section device seq (ground arith) (ground arith))

  abbrev pub AllMergeableTombstones : Dict Text FolderTombstone → Type 0
  AllMergeableTombstones [] = Unit
  AllMergeableTombstones ((path, tombstone) ∷ rest) =
      (is_mergeable_tombstone input path tombstone ≡ true) × AllMergeableTombstones rest

  abbrev pub AllMergeableMoves : Dict Text IndexMove → Type 0
  AllMergeableMoves [] = Unit
  AllMergeableMoves ((id, move) ∷ rest) =
      (is_mergeable_move input id move ≡ true) × AllMergeableMoves rest

  merge_tombstone-Returns :
      (ancestry : PathAncestryIndex) (p : Progress) (path : Text) (tombstone : FolderTombstone)
      → is_mergeable_tombstone input path tombstone ≡ true
      → Returns (merge_tombstone input ancestry p (path, tombstone))
  unfolding merge_tombstone
  merge_tombstone-Returns ancestry p path tombstone m =
      elim (Bool-cases (some tombstone == lookup path input.loaded_base.folder_tombstones)) [
        | inl same ↦ (p, rw (merge_tombstone, same) refl)
        | inr other ↦
            let (seq, e) =
              require_sequence-Returns folder_tombstones tombstone.last_modified_by
                tombstone.mutation_seq (ground arith) in
            (store_tombstone input ancestry p path tombstone, rw (merge_tombstone, other, e) refl)
      ]

  pub merge_tombstones-Returns :
      (ancestry : PathAncestryIndex) (p : Progress) (tombstones : Dict Text FolderTombstone)
      → AllMergeableTombstones tombstones
      → Returns (merge_tombstones input ancestry p tombstones)
  unfolding merge_tombstones
  merge_tombstones-Returns ancestry p [] a = (p, refl)
  merge_tombstones-Returns ancestry p ((path, tombstone) ∷ rest) a =
      let (q, e) = merge_tombstone-Returns ancestry p path tombstone a.0 in
      let (r, f) = merge_tombstones-Returns ancestry q rest a.1 in (r, rw (merge_tombstones, e) f)

  -- The progress after a new move.
  abbrev stored_move : Progress → Text → IndexMove → Progress
  stored_move p id move = record p {
    index = record (p.index) {
      moves =
          insert id
            (record move {
              changed_revision = next_revision input;
              last_modified_by = input.device_id;
            })
            p.index.moves;
    };
    changed = true;
  }

  merge_move-Returns :
      (p : Progress) (id : Text) (move : IndexMove)
      → is_mergeable_move input id move ≡ true
      → Returns (merge_move input p (id, move))
  unfolding merge_move
  merge_move-Returns p id move m =
      elim (Bool-cases (some move == lookup id input.loaded_base.moves)) [
        | inl same ↦ (p, rw (merge_move, same) refl)
        | inr other ↦
            let (seq, e) =
              require_sequence-Returns moves move.last_modified_by move.mutation_seq
                (ground arith) in
            (stored_move p id move, rw (merge_move, other, e) refl)
      ]

  pub merge_moves-Returns :
      (p : Progress) (all_moves : Dict Text IndexMove)
      → AllMergeableMoves all_moves
      → Returns (merge_moves input p all_moves)
  unfolding merge_moves
  merge_moves-Returns p [] a = (p, refl)
  merge_moves-Returns p ((id, move) ∷ rest) a =
      let (q, e) = merge_move-Returns p id move a.0 in
      let (r, f) = merge_moves-Returns q rest a.1 in (r, rw (merge_moves, e) f)
