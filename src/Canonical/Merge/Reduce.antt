-- ===== src/Canonical/Merge/Reduce.antt =====
-- src/sync/canonical/merge.ts: `mergeDesiredIndex`.
use obsidian_yandex_disk_syn.Common.{
  List, [], if◌then◌else◌, ◌==◌, nat_eq, bool_eq, option_eq, list_eq,
}
use obsidian_yandex_disk_syn.Types.{SyncIndex, index_maintenance_eq}
use obsidian_yandex_disk_syn.Canonical.Merge.Context.{
  CanonicalMergeMode, encryption_replacement, target_recovery, replacement, CanonicalMergeInput,
  RejectedCanonicalPut, CanonicalMergeDiagnostic, Progress, Result, returned, ◌>>=◌, ◌>>◌,
}
use obsidian_yandex_disk_syn.Canonical.Merge.Replacement.{
  merge_encryption_replacement, merge_replacement,
}
use obsidian_yandex_disk_syn.Canonical.Merge.Authority.{
  start, check_maintenance, adopt_receipt, merge_target_recovery, check_ownership, set_maintenance,
  close,
}
use obsidian_yandex_disk_syn.Canonical.Merge.Files.{merge_files}
use obsidian_yandex_disk_syn.Canonical.Merge.Logs.{
  merge_folders, merge_moves, complete_moves, raise_watermarks,
}

pub record CanonicalMergeResult : Type 0 where
  pub index : SyncIndex
  pub rejected_puts : List RejectedCanonicalPut
  pub diagnostics : List CanonicalMergeDiagnostic

-- The maintenance of the desired index, if the device changed it.
unfoldable pub settle_maintenance : CanonicalMergeInput → Progress → Progress
unfolding set_maintenance
settle_maintenance input p =
    if input.desired.maintenance == input.loaded_base.maintenance
    then p
    else set_maintenance p input.desired.maintenance

-- The last steps of an ordinary merge: completed moves, watermarks, maintenance, revision.
unfoldable pub finish : CanonicalMergeInput → Progress → Progress
finish input p =
    let raised =
      raise_watermarks (complete_moves p input.completed_move_ids)
        input.desired.applied_mutation_seq in
    close input (settle_maintenance input raised)

-- The modes "normal" and "physical-rewrite", from the ownership guard on.
unfoldable pub merge_ordinary : CanonicalMergeInput → Progress → Result Progress
merge_ordinary input p = do
  check_ownership input
  with_files ← merge_files input p input.desired.files
  with_folders ← merge_folders input with_files
  with_moves ← merge_moves input with_folders input.desired.moves
  returned (finish input with_moves)

-- The modes that start from the latest index, behind their common guards.
unfoldable pub merge_in_mode : CanonicalMergeInput → CanonicalMergeMode → Progress → Result Progress
merge_in_mode input (target_recovery id) p = merge_target_recovery input id p
merge_in_mode input _ p = merge_ordinary input p

unfoldable pub merge_latest : CanonicalMergeInput → Result Progress
merge_latest input = do
  check_maintenance input
  p ← adopt_receipt input (start input)
  merge_in_mode input input.mode p

abbrev pub as_result : Progress → CanonicalMergeResult
as_result p = record {
  index = p.index;
  rejected_puts = p.rejected_puts;
  diagnostics = p.diagnostics;
}

abbrev replaced : SyncIndex → CanonicalMergeResult
replaced index = record { index = index; rejected_puts = []; diagnostics = [] }

unfoldable pub reduce_in : CanonicalMergeInput → CanonicalMergeMode → Result CanonicalMergeResult
reduce_in input encryption_replacement = do
  index ← merge_encryption_replacement input
  returned (replaced index)
reduce_in input (replacement deleted_at) = returned (replaced (merge_replacement input deleted_at))
reduce_in input _ = do p ← merge_latest input; returned (as_result p)

-- `mergeDesiredIndex`
unfoldable pub merge_desired_index : CanonicalMergeInput → Result CanonicalMergeResult
unfolding reduce_in
merge_desired_index input = reduce_in input input.mode
