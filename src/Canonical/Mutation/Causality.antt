-- ===== src/Canonical/Mutation/Causality.antt =====
-- What a classification proves about the causal order of two mutations, and what may be destroyed.
use obsidian_yandex_disk_syn.Common.{
  ℕ, ◌+◌, ◌≤◌, ◌<◌, ◌≡◌, ◌≢◌, ◌↔◌, ◌⊎◌, inl, inr, true, false, none, some, arith, leb,
  if◌then◌else◌, get_or, truthy, ◌==◌, nat_eq, bool_eq, option_eq, list_eq, Bool-cases,
  Option-cases,
}
use obsidian_yandex_disk_syn.Common.Text.{Text}
use obsidian_yandex_disk_syn.Common.Dict.{Dict, lookup, lookup-insert}
use obsidian_yandex_disk_syn.Types.{FileMetadata}
use obsidian_yandex_disk_syn.Canonical.Mutation.{
  can_apply_destructive_folder_mutation, advance_mutation_sequence,
}

-- The folder mutation of a device has seen this state of a child: the child did not change after
-- the base of the mutation, or an earlier mutation of that device wrote it.
abbrev pub HasSeen : FileMetadata → ℕ → Text → ℕ → Type 0
HasSeen m base device seq =
    (get_or m.changed_revision 0 ≤ base)
    ⊎ ((s : ℕ) × (m.last_modified_by ≡ some device) × (m.mutation_seq ≡ some s) × (s < seq))

module _ (m : FileMetadata) (base : ℕ) (device : Text) (seq : ℕ) where
  allowed-HasSeen :
      (s : ℕ)
      → m.mutation_seq ≡ some s
      → can_apply_destructive_folder_mutation m base device seq ≡ true
      → HasSeen m base device seq
  unfolding can_apply_destructive_folder_mutation
  allowed-HasSeen s found h = elim (Bool-cases (leb (get_or m.changed_revision 0) base)) [
    | inl seen ↦ inl (ground arith)
    | inr newer ↦ inr (s, ground arith, found, ground arith)
  ]

  -- A folder mutation may destroy a child exactly when the child is live, carries a sequence, and
  -- its state was seen by the mutation.
  pub can_apply_destructive_folder_mutation_iff :
      (can_apply_destructive_folder_mutation m base device seq ≡ true)
      ↔ ((truthy m.deleted ≡ false) × (m.mutation_seq ≢ none) × HasSeen m base device seq)
  unfolding can_apply_destructive_folder_mutation
  can_apply_destructive_folder_mutation_iff = (
    λ h. (
      ground arith,
      ground arith,
      elim (Option-cases m.mutation_seq) [
        | inl missing ↦ cc (refused missing h)
        | inr (s, found) ↦ allowed-HasSeen s found h
      ],
    ),
    λ h. ground arith,
  )
    where
      refused :
          m.mutation_seq ≡ none
          → can_apply_destructive_folder_mutation m base device seq ≡ true
          → true ≡ false
      refused e h = ground arith

-- `advanceMutationSequence` moves the watermark of the device by one if the sequence is the next
-- one, changes nothing otherwise, and never changes the watermark of another device.
pub advance_mutation_sequence_lem :
    (applied : Dict Text ℕ) (device other : Text) (seq : ℕ)
    → let (after, taken) = advance_mutation_sequence applied device seq in
      ((taken ≡ true) ↔ (seq ≡ get_or (lookup device applied) 0 + 1))
      × (get_or (lookup device after) 0 ≡ (
          if taken then get_or (lookup device applied) 0 + 1 else get_or (lookup device applied) 0))
      × ((device == other) ≡ true ⊎ (lookup other after ≡ lookup other applied))
unfolding advance_mutation_sequence
advance_mutation_sequence_lem applied device other seq =
    ground (arith, lookup-insert device device seq applied, lookup-insert other device seq applied)
