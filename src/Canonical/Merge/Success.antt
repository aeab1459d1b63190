-- ===== src/Canonical/Merge/Success.antt =====
-- When an ordinary merge succeeds: conditions under which no guard throws, whatever the other
-- devices have published.
pub mod Conditions
mod Files
mod Logs
use obsidian_yandex_disk_syn.Common.{
  ℕ, zero, suc, ◌+◌, ◌-◌, ◌≤◌, ◌<◌, ◌≡◌, refl, sym, ap, ◌∙◌, subst, ◌≢◌, ◌↔◌, ◌⊎◌, inl, inr, Bool,
  true, false, not, ◌&&◌, ◌||◌, Option, none, some, List, [], ◌∷◌, ◌++◌, map, arith, ltb, leb,
  if◌then◌else◌, get_or, truthy, truthy_list, is_some, ◌==◌, ◌!=◌, nat_eq, bool_eq, option_eq,
  list_eq, Bool-cases, Option-cases, all, has, eq_of_test, test_self, Eq,
}
use obsidian_yandex_disk_syn.Common.Text.{Text}
use obsidian_yandex_disk_syn.Common.Dict.{
  Dict, lookup, insert, erase, NodupKeys, lookup-insert, lookup-insert_self, lookup-erase,
}
use obsidian_yandex_disk_syn.Types.{
  FileMetadata, FolderTombstone, IndexMove, file_metadata_eq, folder_tombstone_eq, index_move_eq,
  index_maintenance_eq, epoch_adoption_eq, IndexMaintenance,
}
use obsidian_yandex_disk_syn.Local.Baseline.{merge_physical_metadata}
use obsidian_yandex_disk_syn.Paths.Ancestry.{PathAncestryIndex, ancestry_index}
use obsidian_yandex_disk_syn.Canonical.Mutation.{
  FileMutationDecision, apply, fifo_gap, invalid_sequence, FileMutationCausalContext,
  classify_file_mutation, refuse_sequence, same_device_sequences, classify_same_device,
  classify_other,
}
use obsidian_yandex_disk_syn.Canonical.Merge.Context.{
  CanonicalMergeMode, normal, physical_rewrite, CanonicalMergeInput, Progress, Result, returned,
  thrown, throw_if, ◌>>=◌, ◌>>◌, next_revision, IndexSection, folder_tombstones, moves,
}
use obsidian_yandex_disk_syn.Canonical.Merge.Authority.{
  put_file, start, check_maintenance, adopt_receipt, claims_ownership, check_ownership,
}
use obsidian_yandex_disk_syn.Canonical.Merge.Files.{
  is_rewrite, is_metadata_refresh, is_logical_change, check_sequence, is_out_of_order, refresh_file,
  mutation_base, mutation_device, causal_context, decide, touch, keep_current, apply_decision,
  mutate_file, merge_file, merge_files, touches_child,
}
use obsidian_yandex_disk_syn.Canonical.Merge.Logs.{
  require_sequence, store_tombstone, merge_tombstone, merge_tombstones, merge_folders, merge_move,
  merge_moves, keys,
}
use obsidian_yandex_disk_syn.Canonical.Merge.Reduce.{
  finish, merge_ordinary, merge_in_mode, merge_latest, CanonicalMergeResult, as_result, reduce_in,
  merge_desired_index,
}
use obsidian_yandex_disk_syn.Canonical.Merge.Steps.{Round, idle, wrote, merge_file-Round}
use obsidian_yandex_disk_syn.Canonical.Merge.InOrder.{
  clashes, classify_in_order, check_sequence_returns,
}
use obsidian_yandex_disk_syn.Canonical.Merge.Success.Conditions.{
  is_staged_by, is_mergeable_file, is_mergeable_tombstone, is_mergeable_move, Returns,
}
use obsidian_yandex_disk_syn.Canonical.Merge.Success.Files.{
  AllMergeable, Untouched, merge_files-Returns,
}
use obsidian_yandex_disk_syn.Canonical.Merge.Success.Logs.{
  AllMergeableTombstones, AllMergeableMoves, merge_tombstones-Returns, merge_moves-Returns,
}

module _ (input : CanonicalMergeInput) where
  Untouched-start : (files : Dict Text FileMetadata) → Untouched input (start input) files
  unfolding start
  Untouched-start [] = tt
  Untouched-start (_ ∷ files) = (refl, Untouched-start files)

  -- What a device may ask of an ordinary merge: the maintenance and the receipt are those that it
  -- has loaded, it claims no ownership over a revision that it has not seen, and every entry of its
  -- desired index, with its paths listed once, is mergeable.
  pub record IsMergeable : Type 0 where
    pub mode_normal : input.mode ≡ normal
    pub same_maintenance :
        (is_some input.loaded_base.maintenance
          && input.loaded_base.maintenance != input.latest.maintenance)
        ≡ false
    pub same_receipt : input.desired.epoch_adoption ≡ input.latest.epoch_adoption
    pub no_claim : claims_ownership input.desired.maintenance input.loaded_base.maintenance ≡ false
    pub distinct : NodupKeys input.desired.files
    pub each_file : AllMergeable input input.desired.files
    pub each_tombstone : AllMergeableTombstones input input.desired.folder_tombstones
    pub each_move : AllMergeableMoves input input.desired.moves

  merge_ordinary-Returns : IsMergeable → Returns (merge_ordinary input (start input))
  unfolding merge_ordinary check_ownership merge_folders
  merge_ordinary-Returns m =
      let rewriting : is_rewrite input.mode ≡ false = rw m.mode_normal refl in
      let (p, e) =
        merge_files-Returns input (start input) input.desired.files rewriting m.distinct m.each_file
          (Untouched-start input.desired.files) in
      let (q, f) =
        merge_tombstones-Returns input (ancestry_index [] (keys p.index.files)) p
          input.desired.folder_tombstones m.each_tombstone in
      let (r, g) = merge_moves-Returns input q input.desired.moves m.each_move in
      (
        finish input r,
        rw (merge_ordinary, check_ownership, m.no_claim) (rw e (rw (merge_folders, f) (rw g refl))),
      )

merge_in_mode_normal :
    (input : CanonicalMergeInput) (mode : CanonicalMergeMode) (p : Progress)
    → mode ≡ normal
    → merge_in_mode input mode p ≡ merge_ordinary input p
unfolding merge_in_mode
merge_in_mode_normal input mode p e = rw e refl

reduce_in_normal :
    (input : CanonicalMergeInput) (mode : CanonicalMergeMode) (p : Progress)
    → mode ≡ normal
    → merge_latest input ≡ returned p
    → reduce_in input mode ≡ returned (as_result p)
unfolding reduce_in
reduce_in_normal input mode p e l = rw e (rw l refl)

merge_latest-Returns :
    (input : CanonicalMergeInput) → IsMergeable input → Returns (merge_latest input)
unfolding merge_latest check_maintenance adopt_receipt
merge_latest-Returns input m =
    let (p, e) = merge_ordinary-Returns input m in
    let receipt : (input.desired.epoch_adoption == input.latest.epoch_adoption) ≡ true =
      rw m.same_receipt (test_self input.latest.epoch_adoption) in
    (
      p,
      rw (merge_latest, check_maintenance, m.same_maintenance)
          (rw (adopt_receipt, receipt)
            (merge_in_mode_normal input input.mode (start input) m.mode_normal ∙ e)),
    )

-- An ordinary merge returns if its input is mergeable: the mode is the normal one, a maintenance that
-- the device has loaded is still there, the receipt of an epoch is the latest one, the device claims
-- no ownership, its desired paths are distinct, and each desired file, tombstone and move is either
-- what the device had loaded or carries a positive sequence that the device has staged. A file whose
-- server-owned fields alone changed must still be there as it was loaded or as it is desired, and a
-- mutated file must not meet a latest entry with its own device and sequence. Nothing else that other
-- devices have published makes the merge fail.
pub merge_desired_index_returns :
    (input : CanonicalMergeInput)
    → IsMergeable input
    → (r : CanonicalMergeResult) × (merge_desired_index input ≡ returned r)
unfolding merge_desired_index
merge_desired_index_returns input m =
    let (p, e) = merge_latest-Returns input m in
    (as_result p, reduce_in_normal input input.mode p m.mode_normal e)
