-- ===== src/Canonical/Merge/Progressing.antt =====
-- The invariant of the reduction's variables: until the last steps the watermarks are those of the
-- latest index, and an index that is not marked as changed is the latest one.
use obsidian_yandex_disk_syn.Common.{
  ℕ, ◌≡◌, subst, ◌⊎◌, true, List, [], ◌∷◌, arith, nat_eq, bool_eq, option_eq, list_eq,
}
use obsidian_yandex_disk_syn.Common.Text.{Text}
use obsidian_yandex_disk_syn.Common.Dict.{Dict}
use obsidian_yandex_disk_syn.Types.{FileMetadata, FolderTombstone, IndexMove}
use obsidian_yandex_disk_syn.Paths.Ancestry.{PathAncestryIndex}
use obsidian_yandex_disk_syn.Canonical.Merge.Context.{
  CanonicalMergeInput, Progress, returned, >>=-eq-returned, returned-injective,
}
use obsidian_yandex_disk_syn.Canonical.Merge.Authority.{
  start, adopt_receipt, put_file, recover_file, recover_files,
}
use obsidian_yandex_disk_syn.Canonical.Merge.Files.{merge_file, merge_files}
use obsidian_yandex_disk_syn.Canonical.Merge.Steps.{Round, idle, wrote, merge_file-Round}
use obsidian_yandex_disk_syn.Canonical.Merge.Logs.{
  merge_tombstone, merge_tombstones, merge_move, merge_moves, complete_move, complete_moves,
  raise_watermark, raise_watermarks,
}

-- An index that is not marked as changed is the latest one.
abbrev pub IsMarked : CanonicalMergeInput → Progress → Type 0
IsMarked input p = (p.changed ≡ true) ⊎ (p.index ≡ input.latest)

-- What holds of the variables before the last steps.
pub record Kept (input : CanonicalMergeInput) (p : Progress) : Type 0 where
  pub applied : p.index.applied_mutation_seq ≡ input.latest.applied_mutation_seq
  pub marked : IsMarked input p

module _ (input : CanonicalMergeInput) where
  pub start-Kept : Kept input (start input)
  unfolding start
  start-Kept = ground arith

  pub adopt_receipt-Kept :
      (p q : Progress) → Kept input p → adopt_receipt input p ≡ returned q → Kept input q
  unfolding adopt_receipt
  adopt_receipt-Kept p q k h = ground arith

  Round-Kept :
      (p q : Progress) (path : Text) (desired : FileMetadata)
      → Kept input p
      → Round input path desired p q
      → Kept input q
  unfolding put_file
  Round-Kept p q path desired k (idle e f) = ground arith
  Round-Kept p q path desired k (wrote m w e f) = ground arith

  pub merge_files-Kept :
      (p q : Progress) (entries : Dict Text FileMetadata)
      → Kept input p
      → merge_files input p entries ≡ returned q
      → Kept input q
  unfolding merge_files
  merge_files-Kept p q [] k h = subst (Kept input) (returned-injective h) k
  merge_files-Kept p q ((path, desired) ∷ rest) k h =
      let (next, e, f) = >>=-eq-returned (merge_file input p (path, desired)) _ h in
      merge_files-Kept next q rest
        (Round-Kept p next path desired k (merge_file-Round input p path desired next e)) f

  merge_tombstone-Kept :
      (a : PathAncestryIndex) (p q : Progress) (entry : Text × FolderTombstone)
      → Kept input p
      → merge_tombstone input a p entry ≡ returned q
      → Kept input q
  unfolding merge_tombstone
  merge_tombstone-Kept a p q (path, tombstone) k h = ground arith

  pub merge_tombstones-Kept :
      (a : PathAncestryIndex) (p q : Progress) (entries : Dict Text FolderTombstone)
      → Kept input p
      → merge_tombstones input a p entries ≡ returned q
      → Kept input q
  unfolding merge_tombstones
  merge_tombstones-Kept a p q [] k h = subst (Kept input) (returned-injective h) k
  merge_tombstones-Kept a p q (entry ∷ rest) k h =
      let (next, e, f) = >>=-eq-returned (merge_tombstone input a p entry) _ h in
      merge_tombstones-Kept a next q rest (merge_tombstone-Kept a p next entry k e) f

  merge_move-Kept :
      (p q : Progress) (entry : Text × IndexMove)
      → Kept input p
      → merge_move input p entry ≡ returned q
      → Kept input q
  unfolding merge_move
  merge_move-Kept p q (id, move) k h = ground arith

  pub merge_moves-Kept :
      (p q : Progress) (entries : Dict Text IndexMove)
      → Kept input p
      → merge_moves input p entries ≡ returned q
      → Kept input q
  unfolding merge_moves
  merge_moves-Kept p q [] k h = subst (Kept input) (returned-injective h) k
  merge_moves-Kept p q (entry ∷ rest) k h =
      let (next, e, f) = >>=-eq-returned (merge_move input p entry) _ h in
      merge_moves-Kept next q rest (merge_move-Kept p next entry k e) f

  complete_move-Kept : (p : Progress) (id : Text) → Kept input p → Kept input (complete_move p id)
  unfolding complete_move
  complete_move-Kept p id k = ground arith

  pub complete_moves-Kept :
      (p : Progress) (ids : List Text) → Kept input p → Kept input (complete_moves p ids)
  unfolding complete_moves
  complete_moves-Kept p [] k = k
  complete_moves-Kept p (id ∷ ids) k =
      complete_moves-Kept (complete_move p id) ids (complete_move-Kept p id k)

  pub raise_watermarks-IsMarked :
      (p : Progress) (entries : Dict Text ℕ)
      → IsMarked input p
      → IsMarked input (raise_watermarks p entries)
  unfolding raise_watermarks raise_watermark
  raise_watermarks-IsMarked p [] k = k
  raise_watermarks-IsMarked p ((device, seq) ∷ rest) k =
      raise_watermarks-IsMarked (raise_watermark p (device, seq)) rest (ground arith)

  pub recover_files-IsMarked :
      (p q : Progress) (entries : Dict Text FileMetadata)
      → IsMarked input p
      → recover_files input p entries ≡ returned q
      → IsMarked input q
  unfolding recover_files recover_file
  recover_files-IsMarked p q [] k h = subst (IsMarked input) (returned-injective h) k
  recover_files-IsMarked p q ((path, desired) ∷ rest) k h =
      let (next, e, f) = >>=-eq-returned (recover_file input p (path, desired)) _ h in
      recover_files-IsMarked next q rest (ground arith) f
