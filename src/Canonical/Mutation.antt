-- ===== src/Canonical/Mutation.antt =====
-- src/sync/canonical/mutation-rules.ts: how one incoming file mutation is classified against the
-- canonical entry of its path, and merged into it.
pub mod Causality
pub mod Convergence
use obsidian_yandex_disk_syn.Common.{
  ℕ, zero, suc, ◌+◌, ◌≡◌, Bool, true, false, not, ◌&&◌, ◌||◌, Option, none, some, ltb, leb,
  if◌then◌else◌, get_or, truthy, truthy_list, ◌==◌, ◌!=◌, nat_eq, bool_eq, option_eq, list_eq,
}
use obsidian_yandex_disk_syn.Common.Text.{Text}
use obsidian_yandex_disk_syn.Common.Dict.{Dict, lookup, insert}
use obsidian_yandex_disk_syn.Types.{FileMetadata}

-- `isCausalSameDevicePredecessor`
unfoldable pub is_causal_same_device_predecessor : FileMetadata → Option Text → Option ℕ → Bool
is_causal_same_device_predecessor metadata none incoming_seq = false
is_causal_same_device_predecessor metadata (some device) none = false
is_causal_same_device_predecessor metadata (some device) (some incoming) =
    metadata.last_modified_by == some device
    && elim metadata.mutation_seq [ none ↦ false | some seq ↦ ltb seq incoming ]

-- `shouldPreserveConcurrentFolderChild`
unfoldable pub should_preserve_concurrent_folder_child :
    FileMetadata → ℕ → Option Text → Option ℕ → Bool
unfolding is_causal_same_device_predecessor
should_preserve_concurrent_folder_child metadata folder_base device seq =
    if truthy metadata.deleted
    then false
    else if leb (get_or metadata.changed_revision 0) folder_base
    then false
    else not (is_causal_same_device_predecessor metadata device seq)

-- `canApplyDestructiveFolderMutation`
unfoldable pub can_apply_destructive_folder_mutation : FileMetadata → ℕ → Text → ℕ → Bool
unfolding should_preserve_concurrent_folder_child
can_apply_destructive_folder_mutation metadata folder_base device seq =
    if truthy metadata.deleted then false else elim metadata.mutation_seq [
      | none ↦ false
      | some _ ↦
          not
            (should_preserve_concurrent_folder_child metadata folder_base (some device) (some seq))
    ]

pub data FileMutationDecision : Type 0 where
  apply idempotent stale_same_device concurrent_foreign rejected_by_delete fifo_gap
        invalid_sequence :
      FileMutationDecision

pub record FileMutationCausalContext : Type 0 where
  pub current_watermark : ℕ
  pub desired_watermark : ℕ
  pub baseline_sha256 : Option Text

unfoldable pub has_same_logical_file_state : FileMetadata → FileMetadata → Bool
has_same_logical_file_state current incoming =
    current.sha256 == incoming.sha256
    && truthy current.deleted == truthy incoming.deleted
    && current.deleted_by_folder == incoming.deleted_by_folder

-- The guards on the incoming sequence that come before all others.
unfoldable pub refuse_sequence :
    Option FileMutationCausalContext → Option ℕ → Option FileMutationDecision
refuse_sequence none seq = none
refuse_sequence (some causal) none = none
refuse_sequence (some causal) (some seq) =
    if seq == 0
    then some invalid_sequence
    else if ltb causal.desired_watermark seq
    then some fifo_gap
    else none

-- `sameDevice`, with the two sequences that it then compares.
unfoldable pub same_device_sequences : Option FileMetadata → FileMetadata → Option (ℕ × ℕ)
same_device_sequences none incoming = none
same_device_sequences (some current) incoming = elim incoming.last_modified_by [
  | none ↦ none
  | some device ↦
      if current.last_modified_by == some device
      then elim current.mutation_seq [
        | none ↦ none
        | some c ↦ elim incoming.mutation_seq [ none ↦ none | some i ↦ some (c, i) ]
      ]
      else none
]

-- `incomingSequence <= causal.currentWatermark`, where there is a causal context.
abbrev below_watermark : Option FileMutationCausalContext → ℕ → Bool
below_watermark none seq = false
below_watermark (some causal) seq = leb seq causal.current_watermark

unfoldable pub classify_same_device :
    Bool → ℕ → ℕ → Option FileMutationCausalContext → FileMutationDecision
classify_same_device same_state current_seq incoming_seq causal =
    if incoming_seq == current_seq
    then (if same_state then idempotent else invalid_sequence)
    else if ltb incoming_seq current_seq
    then stale_same_device
    else if below_watermark causal incoming_seq
    then stale_same_device
    else apply

-- `causal?.baselineSha256`
abbrev baseline_of : Option FileMutationCausalContext → Option Text
baseline_of none = none
baseline_of (some causal) = causal.baseline_sha256

-- `current && !current.deleted && (current.changedRevision ?? 0) > baseRevision`
unfoldable pub is_live_and_newer : Option FileMetadata → ℕ → Bool
is_live_and_newer none base = false
is_live_and_newer (some current) base =
    not (truthy current.deleted) && ltb base (get_or current.changed_revision 0)

-- The end of the put branch: what a tombstone does to an incoming put.
unfoldable pub classify_put_over : Option FileMetadata → ℕ → FileMutationDecision
classify_put_over none base = apply
classify_put_over (some current) base =
    if not (truthy current.deleted)
    then apply
    else if truthy_list current.deleted_by_folder
    then apply
    else if leb (get_or current.changed_revision 0) base
    then apply
    else rejected_by_delete

-- `current.sha256 !== incoming.sha256 && current.sha256 !== causal?.baselineSha256`
abbrev differs_from : Option FileMetadata → FileMetadata → Option Text → Bool
differs_from none incoming baseline = true
differs_from (some current) incoming baseline =
    current.sha256 != incoming.sha256 && some current.sha256 != baseline

unfoldable pub classify_other :
    Option FileMetadata → FileMetadata → ℕ → Option FileMutationCausalContext → FileMutationDecision
unfolding is_live_and_newer classify_put_over
classify_other current incoming base causal =
    if truthy incoming.deleted
    then (if truthy_list incoming.deleted_by_folder && is_live_and_newer current base
        then concurrent_foreign
        else apply)
    else if is_live_and_newer current base && differs_from current incoming (baseline_of causal)
    then concurrent_foreign
    else classify_put_over current base

abbrev same_state_as : Option FileMetadata → FileMetadata → Bool
unfolding has_same_logical_file_state
same_state_as none incoming = false
same_state_as (some current) incoming = has_same_logical_file_state current incoming

-- `classifyFileMutation`
unfoldable pub classify_file_mutation :
    Option FileMetadata → FileMetadata → ℕ → Option FileMutationCausalContext → FileMutationDecision
unfolding refuse_sequence same_device_sequences classify_same_device classify_other same_state_as
classify_file_mutation current incoming base causal =
    elim (refuse_sequence causal incoming.mutation_seq) [
      | some refused ↦ refused
      | none ↦ elim (same_device_sequences current incoming) [
        | some (c, i) ↦ classify_same_device (same_state_as current incoming) c i causal
        | none ↦ classify_other current incoming base causal
      ]
    ]

-- `shouldApplyFileMutation`
unfoldable pub should_apply_file_mutation : Option FileMetadata → FileMetadata → ℕ → Bool
unfolding classify_file_mutation
should_apply_file_mutation current incoming base =
    elim (classify_file_mutation current incoming base none) [
      | apply ↦ true
      | idempotent ↦ true
      | _ ↦ false
    ]

-- The accepted entry: the incoming one with the stamps of the accepting revision.
unfoldable pub stamp_accepted : FileMetadata → ℕ → ℕ → Text → FileMetadata
stamp_accepted incoming base next_revision device_id = record incoming {
  base_revision = some base;
  changed_revision = some next_revision;
  last_modified_by = some (get_or incoming.last_modified_by device_id);
}

-- `mergeFileMutation`, once the decision is known.
unfoldable pub merge_classified :
    FileMutationDecision → Option FileMetadata → FileMetadata → ℕ → ℕ → Text → Option FileMetadata
unfolding stamp_accepted
merge_classified apply current incoming base next device =
    some (stamp_accepted incoming base next device)
merge_classified _ current incoming base next device = current

-- `mergeFileMutation`: a decision that the caller has made already is taken over.
unfoldable pub merge_file_mutation :
    Option FileMetadata
    → FileMetadata
    → ℕ
    → ℕ
    → Text
    → Option FileMutationCausalContext
    → Option FileMutationDecision
    → Option FileMetadata
unfolding merge_classified classify_file_mutation
merge_file_mutation current incoming base next device causal classified =
    merge_classified (get_or classified (classify_file_mutation current incoming base causal))
      current incoming base next device

-- `advanceMutationSequence`: the watermarks and whether the sequence was taken.
unfoldable pub advance_mutation_sequence : Dict Text ℕ → Text → ℕ → Dict Text ℕ × Bool
advance_mutation_sequence applied device seq =
    if seq == get_or (lookup device applied) 0 + 1
    then (insert device seq applied, true)
    else (applied, false)
