-- ===== src/Canonical/Merge/Watermarks.antt =====
-- The watermarks of a reduced index.
use obsidian_yandex_disk_syn.Common.{
  ℕ, ◌≡◌, sym, ap, ◌∙◌, subst, [], ◌∷◌, arith, if◌then◌else◌, get_or, ◌==◌, nat_eq, bool_eq,
  option_eq, list_eq, max,
}
use obsidian_yandex_disk_syn.Common.Text.{Text}
use obsidian_yandex_disk_syn.Common.Dict.{Dict, lookup, NodupKeys, lookup-insert}
use obsidian_yandex_disk_syn.Canonical.Merge.Context.{CanonicalMergeInput, Progress, returned}
use obsidian_yandex_disk_syn.Canonical.Merge.Authority.{set_maintenance, close}
use obsidian_yandex_disk_syn.Canonical.Merge.Logs.{
  complete_moves, raise_watermark, raise_watermarks,
}
use obsidian_yandex_disk_syn.Canonical.Merge.Progressing.{Kept, complete_moves-Kept}
use obsidian_yandex_disk_syn.Canonical.Merge.Reduce.{
  settle_maintenance, finish, as_result, CanonicalMergeResult, merge_desired_index,
}
use obsidian_yandex_disk_syn.Canonical.Merge.Runs.{IsOrdinary, ordinary_run, OrdinaryRun-Kept}

-- The accepted sequence of a device, 0 if it has none.
abbrev pub watermark : Text → Dict Text ℕ → ℕ
watermark device applied = get_or (lookup device applied) 0

abbrev applied_of : Progress → Dict Text ℕ
applied_of p = p.index.applied_mutation_seq

raise_watermark_lem :
    (p : Progress) (device other : Text) (seq : ℕ)
    → watermark device (applied_of (raise_watermark p (other, seq))) ≡ (
        if other == device
        then max (watermark device (applied_of p)) seq
        else watermark device (applied_of p))
unfolding raise_watermark
raise_watermark_lem p device other seq =
    ground (arith, lookup-insert device other seq (applied_of p))

raise_watermarks_lem :
    (p : Progress) (device : Text) (entries : Dict Text ℕ)
    → NodupKeys entries
    → watermark device (applied_of (raise_watermarks p entries))
      ≡ max (watermark device (applied_of p)) (watermark device entries)
unfolding raise_watermarks lookup
raise_watermarks_lem p device [] h = omega arith
raise_watermarks_lem p device ((other, seq) ∷ rest) (fresh, h) = ground (
  arith,
  raise_watermarks_lem (raise_watermark p (other, seq)) device rest h,
  raise_watermark_lem p device other seq,
)

module _ (input : CanonicalMergeInput) (nodup : NodupKeys input.desired.applied_mutation_seq)
    (device : Text) where
  finish-watermark :
      (p : Progress)
      → Kept input p
      → watermark device (applied_of (finish input p))
        ≡ max
            (watermark device input.latest.applied_mutation_seq)
            (watermark device input.desired.applied_mutation_seq)
  unfolding finish settle_maintenance set_maintenance close
  finish-watermark p k =
      let done = complete_moves p input.completed_move_ids in
      let raised = raise_watermarks_lem done device input.desired.applied_mutation_seq nodup in
      let same = (complete_moves-Kept input p input.completed_move_ids k).applied in ground arith

  -- After an ordinary merge the watermark of each device is the greater one of the latest and the
  -- desired index, if the desired index lists each device once.
  pub merge_desired_index-watermark :
      (r : CanonicalMergeResult)
      → IsOrdinary input.mode
      → merge_desired_index input ≡ returned r
      → watermark device r.index.applied_mutation_seq
        ≡ max
            (watermark device input.latest.applied_mutation_seq)
            (watermark device input.desired.applied_mutation_seq)
  merge_desired_index-watermark r m h =
      let run = ordinary_run input r m h in
      subst
        (λ (r : CanonicalMergeResult).
          watermark device r.index.applied_mutation_seq
          ≡ max (watermark device input.latest.applied_mutation_seq)
              (watermark device input.desired.applied_mutation_seq))
        (sym (run.answers ∙ ap as_result run.closed))
        (finish-watermark run.with_moves (OrdinaryRun-Kept input run))
