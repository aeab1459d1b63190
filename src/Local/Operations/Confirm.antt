-- ===== src/Local/Operations/Confirm.antt =====
-- src/sync/local/operation-store.ts: staging and confirmation against the canonical watermarks.
use obsidian_yandex_disk_syn.Common.{
  ℕ, ◌+◌, ◌-◌, Bool, none, some, List, [], ◌∷◌, ltb, leb, if◌then◌else◌, get_or, ◌==◌, ◌!=◌, nat_eq,
  bool_eq, option_eq, list_eq, filter, find,
}
use obsidian_yandex_disk_syn.Common.Text.{Text}
use obsidian_yandex_disk_syn.Common.Dict.{Dict, lookup}
use obsidian_yandex_disk_syn.Types.{PendingMutation}
use obsidian_yandex_disk_syn.Canonical.Mutation.{advance_mutation_sequence}
use obsidian_yandex_disk_syn.Local.Operations.{LocalOperationStore}

-- `stageMutation`
unfoldable pub stage_mutation :
    LocalOperationStore → Dict Text ℕ → PendingMutation → Dict Text ℕ × Bool
stage_mutation s applied m = advance_mutation_sequence applied s.device_id m.seq

-- The stable sort of `stagePendingMutations`.
unfoldable pub insert_by_seq : PendingMutation → List PendingMutation → List PendingMutation
insert_by_seq m [] = m ∷ []
insert_by_seq m (n ∷ ns) = if leb m.seq n.seq then m ∷ n ∷ ns else n ∷ insert_by_seq m ns

unfoldable pub sort_by_seq : List PendingMutation → List PendingMutation
unfolding insert_by_seq
sort_by_seq [] = []
sort_by_seq (m ∷ ms) = insert_by_seq m (sort_by_seq ms)

unfoldable pub stage_all : LocalOperationStore → Dict Text ℕ → List PendingMutation → Dict Text ℕ
unfolding stage_mutation
stage_all s applied [] = applied
stage_all s applied (m ∷ ms) = stage_all s (stage_mutation s applied m).0 ms

-- `stagePendingMutations`
unfoldable pub stage_pending_mutations : LocalOperationStore → Dict Text ℕ → Dict Text ℕ
unfolding stage_all sort_by_seq
stage_pending_mutations s applied = stage_all s applied (sort_by_seq s.pending_mutations)

-- `confirmMutation`
unfoldable pub confirm_mutation : Text → Dict Text ℕ → LocalOperationStore → LocalOperationStore
confirm_mutation id applied s = elim (find (λ m. m.id == id) s.pending_mutations) [
  | none ↦ s
  | some m ↦
      if ltb (get_or (lookup s.device_id applied) 0) m.seq
      then s
      else record s { pending_mutations = filter (λ n. n.id != id) s.pending_mutations }
]

-- `discardNewestMutation`
unfoldable pub discard_newest_mutation : Text → LocalOperationStore → LocalOperationStore
discard_newest_mutation id s = elim (find (λ m. m.id == id) s.pending_mutations) [
  | none ↦ s
  | some m ↦ if m.seq + 1 != s.next_mutation_seq then s else record s {
    pending_mutations = filter (λ n. n.id != id) s.pending_mutations;
    next_mutation_seq = s.next_mutation_seq - 1;
  }
]

-- `confirmAppliedMutations`
unfoldable pub confirm_applied_mutations : Dict Text ℕ → LocalOperationStore → LocalOperationStore
confirm_applied_mutations applied s = record s {
  pending_mutations =
      filter (λ m. ltb (get_or (lookup s.device_id applied) 0) m.seq) s.pending_mutations;
}
