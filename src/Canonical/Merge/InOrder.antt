-- ===== src/Canonical/Merge/InOrder.antt =====
-- When the classification of a mutation finds its sequence in order.
use obsidian_yandex_disk_syn.Common.{
  ℕ, ◌≤◌, ◌<◌, ◌≡◌, ap, ◌∙◌, ◌≢◌, inl, inr, Bool, false, ◌&&◌, Option, none, some, arith, ◌==◌,
  nat_eq, bool_eq, option_eq, list_eq, Bool-cases, Option-cases, eq_of_test,
}
use obsidian_yandex_disk_syn.Common.Text.{Text}
use obsidian_yandex_disk_syn.Types.{
  FileMetadata, file_metadata_eq, folder_tombstone_eq, index_move_eq, index_maintenance_eq,
  epoch_adoption_eq,
}
use obsidian_yandex_disk_syn.Canonical.Mutation.{
  FileMutationCausalContext, classify_file_mutation, refuse_sequence, same_device_sequences,
  classify_same_device, classify_other,
}
use obsidian_yandex_disk_syn.Canonical.Merge.Context.{returned}
use obsidian_yandex_disk_syn.Canonical.Merge.Files.{check_sequence, is_out_of_order}

-- Two entries with the same device and sequence.
abbrev pub clashes : Option FileMetadata → FileMetadata → Bool
clashes none desired = false
clashes (some current) desired =
    current.last_modified_by == desired.last_modified_by
    && current.mutation_seq == desired.mutation_seq

same_device_sequences-parts :
    (current incoming : FileMetadata) (c i : ℕ)
    → same_device_sequences (some current) incoming ≡ some (c, i)
    → (device : Text) × (incoming.last_modified_by ≡ some device)
      × (current.last_modified_by ≡ some device)
      × (current.mutation_seq ≡ some c)
      × (incoming.mutation_seq ≡ some i)
unfolding same_device_sequences
same_device_sequences-parts current incoming c i h = elim (Option-cases incoming.last_modified_by) [
  | inl e ↦ absurd (let k = rw (same_device_sequences, e) at h in cc)
  | inr (device, e) ↦ elim (Bool-cases (current.last_modified_by == some device)) [
    | inr other ↦ absurd (let k = rw (same_device_sequences, e, other) at h in cc)
    | inl same ↦ elim (Option-cases current.mutation_seq) [
      | inl f ↦ absurd (let k = rw (same_device_sequences, e, same, f) at h in cc)
      | inr (a, f) ↦ elim (Option-cases incoming.mutation_seq) [
        | inl g ↦ absurd (let k = rw (same_device_sequences, e, same, f, g) at h in cc)
        | inr (b, g) ↦
            let k : some (a, b) ≡ some (c, i) = rw (same_device_sequences, e, same, f, g) at h in
            let (p, q) : (a ≡ c) × (b ≡ i) = ground arith in
            (
              device,
              e,
              eq_of_test current.last_modified_by (some device) same,
              f ∙ ap some p,
              g ∙ ap some q,
            )
      ]
    ]
  ]
]

classify_other_in_order :
    (current : Option FileMetadata) (incoming : FileMetadata) (base : ℕ)
    (causal : Option FileMutationCausalContext)
    → is_out_of_order (classify_other current incoming base causal) ≡ false
unfolding classify_other
classify_other_in_order none incoming base causal = ground arith
classify_other_in_order (some current) incoming base causal = ground arith

classify_same_device_in_order :
    (same : Bool) (c i : ℕ) (causal : Option FileMutationCausalContext)
    → c ≢ i
    → is_out_of_order (classify_same_device same c i causal) ≡ false
unfolding classify_same_device
classify_same_device_in_order same c i causal n = ground arith

refuse_sequence-staged :
    (causal : FileMutationCausalContext) (seq : ℕ)
    → 0 < seq
    → seq ≤ causal.desired_watermark
    → refuse_sequence (some causal) (some seq) ≡ none
unfolding refuse_sequence
refuse_sequence-staged causal seq p l = ground arith

clashes-ne :
    (current incoming : FileMetadata) (device : Text) (c i : ℕ)
    → incoming.last_modified_by ≡ some device
    → current.last_modified_by ≡ some device
    → current.mutation_seq ≡ some c
    → incoming.mutation_seq ≡ some i
    → clashes (some current) incoming ≡ false
    → c ≢ i
clashes-ne current incoming device c i a b f g h same =
    let k : ((some device == some device) && (some c == some i)) ≡ false = rw (a, b, f, g) at h in
    ground arith

pub classify_in_order :
    (current : Option FileMetadata) (incoming : FileMetadata) (base : ℕ)
    (causal : FileMutationCausalContext) (seq : ℕ)
    → incoming.mutation_seq ≡ some seq
    → 0 < seq
    → seq ≤ causal.desired_watermark
    → clashes current incoming ≡ false
    → is_out_of_order (classify_file_mutation current incoming base (some causal)) ≡ false
unfolding classify_file_mutation
classify_in_order none incoming base causal seq e p l c =
    rw (classify_file_mutation, e, refuse_sequence-staged causal seq p l)
      (classify_other_in_order none incoming base (some causal))
classify_in_order (some current) incoming base causal seq e p l c =
    elim (Option-cases (same_device_sequences (some current) incoming)) [
      | inl foreign ↦
          rw (classify_file_mutation, e, refuse_sequence-staged causal seq p l, foreign)
            (classify_other_in_order (some current) incoming base (some causal))
      | inr ((a, b), own) ↦
          let (device, d, k, f, g) = same_device_sequences-parts current incoming a b own in
          rw (classify_file_mutation, e, refuse_sequence-staged causal seq p l, own)
            (classify_same_device_in_order _ a b (some causal)
              (clashes-ne current incoming device a b d k f g c))
    ]

pub check_sequence_returns :
    (desired : FileMetadata) (baseline : Option FileMetadata) (seq : ℕ)
    → desired.mutation_seq ≡ some seq
    → 0 < seq
    → check_sequence desired baseline ≡ returned tt
unfolding check_sequence
check_sequence_returns desired none seq e p = ground arith
check_sequence_returns desired (some b) seq e p = ground arith
