-- ===== src/Canonical/Merge/Revision.antt =====
-- The revision of a reduced index.
use obsidian_yandex_disk_syn.Common.{
  ◌+◌, ◌≡◌, sym, subst, ◌⊎◌, arith, nat_eq, bool_eq, option_eq, list_eq,
}
use obsidian_yandex_disk_syn.Common.Text.{Text}
use obsidian_yandex_disk_syn.Types.{SyncIndex, index_maintenance_eq}
use obsidian_yandex_disk_syn.Canonical.Merge.Context.{
  CanonicalMergeMode, encryption_replacement, target_recovery, replacement, CanonicalMergeInput,
  Progress, returned, >>=-eq-returned, returned-injective,
}
use obsidian_yandex_disk_syn.Canonical.Merge.Replacement.{
  merge_encryption_replacement, merge_replacement,
}
use obsidian_yandex_disk_syn.Canonical.Merge.Authority.{
  start, check_maintenance, adopt_receipt, check_recovery, recover_target, settle_recovery,
  merge_target_recovery, close,
}
use obsidian_yandex_disk_syn.Canonical.Merge.Progressing.{
  IsMarked, Kept, start-Kept, adopt_receipt-Kept, complete_moves-Kept, raise_watermarks-IsMarked,
  recover_files-IsMarked,
}
use obsidian_yandex_disk_syn.Canonical.Merge.Runs.{steps_of_ordinary, OrdinarySteps-Kept}
use obsidian_yandex_disk_syn.Canonical.Merge.Reduce.{
  settle_maintenance, finish, merge_ordinary, merge_in_mode, merge_latest, reduce_in,
  CanonicalMergeResult, merge_desired_index,
}

-- Nothing changed and the index is the latest one, or the revision went up by one.
abbrev pub Advances : CanonicalMergeInput → SyncIndex → Type 0
Advances input index = (index ≡ input.latest) ⊎ (index.revision ≡ input.latest.revision + 1)

module _ (input : CanonicalMergeInput) where
  close-Advances : (p : Progress) → IsMarked input p → Advances input (close input p).index
  unfolding close
  close-Advances p m = ground arith

  settle_maintenance-IsMarked :
      (p : Progress) → IsMarked input p → IsMarked input (settle_maintenance input p)
  unfolding settle_maintenance
  settle_maintenance-IsMarked p m = ground arith

  finish-Advances : (p : Progress) → Kept input p → Advances input (finish input p).index
  unfolding finish
  finish-Advances p k = close-Advances _ (
      settle_maintenance-IsMarked _ (
        raise_watermarks-IsMarked input _ input.desired.applied_mutation_seq
          (complete_moves-Kept input p input.completed_move_ids k).marked))

  settle_recovery-IsMarked :
      (p : Progress) → IsMarked input p → IsMarked input (settle_recovery input p)
  unfolding settle_recovery
  settle_recovery-IsMarked p m = ground arith

  recover_target-IsMarked :
      (p q : Progress) → IsMarked input p → recover_target input p ≡ returned q → IsMarked input q
  unfolding recover_target
  recover_target-IsMarked p q m h =
      ground (arith, recover_files-IsMarked input p q input.desired.files m)

  merge_target_recovery-Advances :
      (id : Text) (p q : Progress)
      → IsMarked input p
      → merge_target_recovery input id p ≡ returned q
      → Advances input q.index
  unfolding merge_target_recovery
  merge_target_recovery-Advances id p q m h =
      let (_, _, h₁) = >>=-eq-returned (check_recovery input id) _ h in
      let (t, et, h₂) = >>=-eq-returned (recover_target input p) _ h₁ in
      subst (λ q. Advances input q.index) (returned-injective h₂)
        (close-Advances _ (settle_recovery-IsMarked t (recover_target-IsMarked p t m et)))

  merge_ordinary-Advances :
      (p q : Progress) → Kept input p → merge_ordinary input p ≡ returned q → Advances input q.index
  merge_ordinary-Advances p q k h =
      let run = steps_of_ordinary input p q h in
      subst (λ q. Advances input q.index) (sym run.closed)
        (finish-Advances run.with_moves (OrdinarySteps-Kept input run k))

  merge_in_mode-Advances :
      (mode : CanonicalMergeMode) (p q : Progress)
      → Kept input p
      → merge_in_mode input mode p ≡ returned q
      → Advances input q.index
  unfolding merge_in_mode
  merge_in_mode-Advances (target_recovery id) p q k h =
      merge_target_recovery-Advances id p q k.marked h
  merge_in_mode-Advances mode p q k h = merge_ordinary-Advances p q k h

  merge_latest-Advances : (q : Progress) → merge_latest input ≡ returned q → Advances input q.index
  unfolding merge_latest
  merge_latest-Advances q h =
      let (_, _, h₁) = >>=-eq-returned (check_maintenance input) _ h in
      let (p, ep, h₂) = >>=-eq-returned (adopt_receipt input (start input)) _ h₁ in
      merge_in_mode-Advances input.mode p q
        (adopt_receipt-Kept input (start input) p (start-Kept input) ep) h₂

  reduce_in-Advances :
      (mode : CanonicalMergeMode) (r : CanonicalMergeResult)
      → reduce_in input mode ≡ returned r
      → Advances input r.index
  unfolding reduce_in merge_encryption_replacement merge_replacement
  reduce_in-Advances encryption_replacement r h = ground arith
  reduce_in-Advances (replacement deleted_at) r h = ground arith
  reduce_in-Advances mode r h =
      let (p, ep, h₁) = >>=-eq-returned (merge_latest input) _ h in
      subst (λ r. Advances input r.index) (returned-injective h₁) (merge_latest-Advances p ep)

-- A reduction that succeeds, in any mode, either changes nothing and answers the latest index, or
-- answers an index whose revision is the next one.
pub merge_desired_index-revision :
    (input : CanonicalMergeInput) (r : CanonicalMergeResult)
    → merge_desired_index input ≡ returned r
    → Advances input r.index
unfolding merge_desired_index
merge_desired_index-revision input r h = reduce_in-Advances input input.mode r h
