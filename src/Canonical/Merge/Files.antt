-- ===== src/Canonical/Merge/Files.antt =====
-- src/sync/canonical/merge.ts: the loop over the files of the desired index.
use obsidian_yandex_disk_syn.Common.{
  ℕ, Bool, true, false, not, ◌&&◌, ◌||◌, Option, none, some, List, [], ◌∷◌, ◌++◌, if◌then◌else◌,
  get_or, truthy, truthy_list, is_some, ◌==◌, ◌!=◌, nat_eq, bool_eq, option_eq, list_eq,
}
use obsidian_yandex_disk_syn.Common.Text.{Text}
use obsidian_yandex_disk_syn.Common.Dict.{Dict, lookup, insert}
use obsidian_yandex_disk_syn.Types.{FileMetadata, PendingMutation, file_metadata_eq}
use obsidian_yandex_disk_syn.Local.Baseline.{is_put, merge_physical_metadata}
use obsidian_yandex_disk_syn.Canonical.Mutation.{
  FileMutationDecision, apply, concurrent_foreign, rejected_by_delete, fifo_gap, invalid_sequence,
  FileMutationCausalContext, classify_file_mutation, merge_classified,
}
use obsidian_yandex_disk_syn.Canonical.Merge.Context.{
  CanonicalMergeMode, physical_rewrite, CanonicalMergeInput, RejectReason, by_delete, by_conflict,
  RejectedCanonicalPut, CanonicalMergeDiagnostic, Progress, logical_state_changed,
  canonical_file_changed, files, missing_sequence, zero_sequence, rejected, concurrent_modification,
  invalid_current_index, Result, returned, thrown, throw_if, ◌>>=◌, ◌>>◌, next_revision,
}
use obsidian_yandex_disk_syn.Canonical.Merge.Authority.{put_file}

-- The map `putBaselines`: the baseline of the last pending put of each path.
unfoldable pub collect_put_baselines :
    Dict Text (Option Text) → List PendingMutation → Dict Text (Option Text)
collect_put_baselines baselines [] = baselines
collect_put_baselines baselines (m ∷ ms) =
    collect_put_baselines
      (if is_put m.type then insert m.path m.baseline_sha256 baselines else baselines) ms

-- `putBaselines.get(path)`
unfoldable pub put_baseline : CanonicalMergeInput → Text → Option Text
unfolding collect_put_baselines
put_baseline input path = get_or (lookup path (collect_put_baselines [] input.put_baselines)) none

-- A change of the two server-owned fields alone, over a live baseline.
unfoldable pub is_metadata_refresh : FileMetadata → Option FileMetadata → Bool
is_metadata_refresh desired none = false
is_metadata_refresh desired (some baseline) =
    not (truthy baseline.deleted)
    && record desired {
      remote_fingerprint = baseline.remote_fingerprint;
      remote_mtime = baseline.remote_mtime;
    }
      == baseline

-- The refresh of a live file: nothing if the latest index has it already.
unfoldable pub refresh_file :
    Progress → Text → FileMetadata → Option FileMetadata → Option FileMetadata → Result Progress
refresh_file p path desired baseline current =
    if current == some desired
    then returned p
    else elim (if current == baseline
        then merge_physical_metadata current baseline desired
        else none) [
          | none ↦ thrown (concurrent_modification canonical_file_changed)
          | some physical ↦ returned (put_file p path physical)
        ]

-- `logicalChange`
unfoldable pub is_logical_change : FileMetadata → Option FileMetadata → Bool
is_logical_change desired none = true
is_logical_change desired (some baseline) =
    desired.sha256 != baseline.sha256
    || desired.deleted != baseline.deleted
    || desired.deleted_by_folder != baseline.deleted_by_folder

-- The guards on the sequence of a logical change.
unfoldable pub check_sequence : FileMetadata → Option FileMetadata → Result (Unit {0})
unfolding is_logical_change
check_sequence desired baseline = do
  throw_if (is_logical_change desired baseline && not (is_some desired.mutation_seq))
      (invalid_current_index files missing_sequence)
  throw_if (is_logical_change desired baseline && desired.mutation_seq == some 0)
      (invalid_current_index files zero_sequence)

-- `mutationBase` and `mutationDevice`
unfoldable pub mutation_base : CanonicalMergeInput → FileMetadata → ℕ
mutation_base input desired = get_or desired.base_revision input.base_revision

unfoldable pub mutation_device : CanonicalMergeInput → FileMetadata → Text
mutation_device input desired = get_or desired.last_modified_by input.device_id

-- `causalContext`
unfoldable pub causal_context :
    CanonicalMergeInput → Text → FileMetadata → FileMutationCausalContext
unfolding mutation_device
causal_context input path desired = record {
  baseline_sha256 = put_baseline input path;
  current_watermark =
      get_or (lookup (mutation_device input desired) input.latest.applied_mutation_seq) 0;
  desired_watermark =
      get_or (lookup (mutation_device input desired) input.desired.applied_mutation_seq) 0;
}

-- The decision on a desired entry over a current one.
unfoldable pub decide :
    CanonicalMergeInput → Text → FileMetadata → Option FileMetadata → FileMutationDecision
unfolding causal_context mutation_base
decide input path desired current =
    classify_file_mutation current desired (mutation_base input desired)
      (some (causal_context input path desired))

abbrev pub is_out_of_order : FileMutationDecision → Bool
is_out_of_order fifo_gap = true
is_out_of_order invalid_sequence = true
is_out_of_order _ = false

-- A folder deletion that meets a newer live child marks the child as changed.
abbrev pub touches_child : FileMutationDecision → FileMetadata → Option FileMetadata → Bool
touches_child concurrent_foreign desired (some current) =
    truthy_list desired.deleted_by_folder && not (truthy current.deleted)
touches_child _ desired current = false

abbrev pub reject_reason : FileMutationDecision → Option RejectReason
reject_reason rejected_by_delete = some by_delete
reject_reason concurrent_foreign = some by_conflict
reject_reason _ = none

-- The upload whose content was refused, for its physical clean-up.
unfoldable pub rejected_put :
    CanonicalMergeInput
    → Text
    → FileMetadata
    → Option FileMetadata
    → FileMutationDecision
    → List RejectedCanonicalPut
rejected_put input path desired none decision = []
rejected_put input path desired (some current) decision =
    if not (truthy desired.deleted)
    then elim (reject_reason decision) [
      | none ↦ []
      | some reason ↦ elim desired.remote_fingerprint [
        | none ↦ []
        | some fingerprint ↦
            if truthy_list (some fingerprint)
            then record {
              path = path;
              reason = reason;
              remote_fingerprint = fingerprint;
              baseline_sha256 = put_baseline input path;
            }
              ∷ []
            else []
      ]
    ]
    else []

unfoldable pub diagnostic :
    CanonicalMergeInput
    → Text
    → FileMetadata
    → Option FileMetadata
    → FileMutationDecision
    → CanonicalMergeDiagnostic
unfolding mutation_base mutation_device
diagnostic input path desired current decision = record {
  path = path;
  decision = decision;
  base_revision = mutation_base input desired;
  current_revision = elim current [ none ↦ none | some m ↦ m.changed_revision ];
  mutation_seq = desired.mutation_seq;
  device_id = mutation_device input desired;
}

-- `{ ...current, changedRevision: nextRevision }`
unfoldable pub touch : CanonicalMergeInput → FileMetadata → FileMetadata
touch input current = record current { changed_revision = some (next_revision input) }

-- A mutation that does not replace the current entry.
unfoldable pub keep_current :
    CanonicalMergeInput
    → Progress
    → Text
    → FileMetadata
    → Option FileMetadata
    → FileMutationDecision
    → Progress
unfolding rejected_put diagnostic touch
keep_current input p path desired none decision = record p {
  diagnostics = p.diagnostics ++ diagnostic input path desired none decision ∷ [];
}
keep_current input p path desired (some current) decision =
    if touches_child decision desired (some current)
    then put_file p path (touch input current)
    else record p {
      rejected_puts = p.rejected_puts ++ rejected_put input path desired (some current) decision;
      diagnostics = p.diagnostics ++ diagnostic input path desired (some current) decision ∷ [];
    }

-- `next === current || !next`: by identity, so only an applied mutation makes a new entry.
unfoldable pub apply_decision :
    CanonicalMergeInput
    → Progress
    → Text
    → FileMetadata
    → Option FileMetadata
    → FileMutationDecision
    → Progress
unfolding keep_current
apply_decision input p path desired current apply =
    elim (merge_classified apply current desired (mutation_base input desired) (next_revision input)
      input.device_id) [ none ↦ p | some next ↦ put_file p path next ]
apply_decision input p path desired current decision =
    keep_current input p path desired current decision

-- A logical mutation of a file.
unfoldable pub mutate_file :
    CanonicalMergeInput
    → Progress
    → Text
    → FileMetadata
    → Option FileMetadata
    → Option FileMetadata
    → Result Progress
mutate_file input p path desired baseline current = do
  check_sequence desired baseline
  let decision = decide input path desired current
  throw_if (is_out_of_order decision) (invalid_current_index files (rejected decision))
  returned (apply_decision input p path desired current decision)

abbrev pub is_rewrite : CanonicalMergeMode → Bool
is_rewrite physical_rewrite = true
is_rewrite _ = false

-- One round of the loop over the desired files.
unfoldable pub merge_file : CanonicalMergeInput → Progress → Text × FileMetadata → Result Progress
merge_file input p (path, desired) =
    let baseline = lookup path input.loaded_base.files in
    let current = lookup path p.index.files in
    if some desired == baseline
    then returned p
    else if is_rewrite input.mode
    then elim (merge_physical_metadata current baseline desired) [
      | none ↦ thrown (concurrent_modification (logical_state_changed path))
      | some physical ↦ returned (put_file p path physical)
    ]
    else if is_metadata_refresh desired baseline
    then refresh_file p path desired baseline current
    else mutate_file input p path desired baseline current

unfoldable pub merge_files :
    CanonicalMergeInput → Progress → Dict Text FileMetadata → Result Progress
unfolding merge_file
merge_files input p [] = returned p
merge_files input p (entry ∷ rest) = do next ← merge_file input p entry; merge_files input next rest
