-- ===== src/Local/Operations/Staging.antt =====
-- Staging: what the whole queue does to the watermarks of a canonical state.
use obsidian_yandex_disk_syn.Common.{
  ℕ, ◌+◌, ◌-◌, ◌<◌, ◌≡◌, refl, ◌∙◌, inl, inr, List, [], ◌∷◌, arith, ltb, leb, if◌then◌else◌, get_or,
  ◌==◌, nat_eq, bool_eq, option_eq, list_eq, Bool-cases, filter,
}
use obsidian_yandex_disk_syn.Common.Text.{Text}
use obsidian_yandex_disk_syn.Common.Dict.{Dict, lookup, insert, lookup-insert}
use obsidian_yandex_disk_syn.Types.{PendingMutation}
use obsidian_yandex_disk_syn.Canonical.Mutation.{advance_mutation_sequence}
use obsidian_yandex_disk_syn.Local.Operations.{LocalOperationStore, expect_from}
use obsidian_yandex_disk_syn.Local.Operations.Confirm.{
  stage_mutation, stage_all, stage_pending_mutations, confirm_applied_mutations,
}
use obsidian_yandex_disk_syn.Local.Operations.Queue.{expect_from-le}
use obsidian_yandex_disk_syn.Local.Operations.Allocation.{StoreReach, StoreReach-Fifo}
use obsidian_yandex_disk_syn.Local.Operations.Order.{StoreReach-Ascending, sort_by_seq-Ascending}

stage_mutation-stale :
    (s : LocalOperationStore) (applied : Dict Text ℕ) (m : PendingMutation)
    → m.seq < get_or (lookup s.device_id applied) 0 + 1
    → (stage_mutation s applied m).0 ≡ applied
unfolding stage_mutation advance_mutation_sequence
stage_mutation-stale s applied m h = ground arith

stage_mutation-next :
    (s : LocalOperationStore) (applied : Dict Text ℕ) (m : PendingMutation)
    → m.seq ≡ get_or (lookup s.device_id applied) 0 + 1
    → (stage_mutation s applied m).0 ≡ insert s.device_id m.seq applied
unfolding stage_mutation advance_mutation_sequence
stage_mutation-next s applied m h = ground arith

-- A queue that the check accepts raises its device's watermark to the end, and no other's.
stage_all-watermark :
    (s : LocalOperationStore) (w n next : ℕ) (applied : Dict Text ℕ) (ms : List PendingMutation)
    (e : Text)
    → expect_from s.device_id w n ms ≡ inr next
    → w < n
    → get_or (lookup s.device_id applied) 0 + 1 ≡ n
    → get_or (lookup e (stage_all s applied ms)) 0
      ≡ (if e == s.device_id then next - 1 else get_or (lookup e applied) 0)
unfolding stage_all expect_from
stage_all-watermark s w n next applied [] e h l k = ground arith
stage_all-watermark s w n next applied (m ∷ ms) e h l k = elim (Bool-cases (leb m.seq w)) [
  | inl done ↦
      let same : (stage_mutation s applied m).0 ≡ applied =
        stage_mutation-stale s applied m (ground arith) in
      rw (stage_all, same) (stage_all-watermark s w n next applied ms e (ground arith) l k)
  | inr later ↦
      let taken : (stage_mutation s applied m).0 ≡ insert s.device_id m.seq applied =
        stage_mutation-next s applied m (ground arith) in
      let rest : expect_from s.device_id w (n + 1) ms ≡ inr next = ground arith in
      rw (stage_all, taken)
        (stage_all-watermark s w (n + 1) next (insert s.device_id m.seq applied) ms e rest
            (omega arith) (ground (arith, lookup-insert s.device_id s.device_id m.seq applied))
          ∙ ground (arith, lookup-insert e s.device_id m.seq applied))
]

filter-accepted :
    (d : Text) (w n next : ℕ) (ms : List PendingMutation)
    → expect_from d w n ms ≡ inr next
    → w < n
    → filter (λ m. ltb (next - 1) m.seq) ms ≡ []
unfolding expect_from
filter-accepted d w n next [] h l = refl
filter-accepted d w n next (m ∷ ms) h l = elim (Bool-cases (leb m.seq w)) [
  | inl done ↦
      let rest : expect_from d w n ms ≡ inr next = ground arith in
      ground (arith, filter-accepted d w n next ms rest l, expect_from-le d w n ms next rest)
  | inr later ↦
      let rest : expect_from d w (n + 1) ms ≡ inr next = ground arith in
      ground (
        arith,
        filter-accepted d w (n + 1) next ms rest (omega arith),
        expect_from-le d w (n + 1) ms next rest,
      )
]

-- Publishing a queue accepts all of it: at any time in the life of a store, staging the pending
-- mutations on a canonical state with the current watermark sets the watermark of this device to
-- the last allocated sequence and no other one, and confirming against the result empties the
-- queue.
pub stage_pending_mutations_lem :
    (d : Text) (w : ℕ) (s : LocalOperationStore) (applied : Dict Text ℕ) (e : Text)
    → StoreReach d w s
    → get_or (lookup d applied) 0 ≡ w
    → (get_or (lookup e (stage_pending_mutations s applied)) 0
        ≡ (if e == d then s.next_mutation_seq - 1 else get_or (lookup e applied) 0))
      × ((confirm_applied_mutations (stage_pending_mutations s applied) s).pending_mutations ≡ [])
unfolding stage_pending_mutations confirm_applied_mutations
stage_pending_mutations_lem d w s applied e r a =
    let f = StoreReach-Fifo r in
    let sorted = sort_by_seq-Ascending 1 s.pending_mutations (StoreReach-Ascending r) in
    let unbroken : expect_from s.device_id w (w + 1) s.pending_mutations ≡ inr s.next_mutation_seq =
      rw f.device f.unbroken in
    let mine : get_or (lookup s.device_id applied) 0 + 1 ≡ w + 1 = rw f.device (rw a refl) in
    let raised = λ (x : Text).
      stage_all-watermark s w (w + 1) s.next_mutation_seq applied s.pending_mutations x unbroken
        (omega arith) mine in
    let own : get_or (lookup s.device_id (stage_all s applied s.pending_mutations)) 0
        ≡ s.next_mutation_seq - 1 =
      ground (arith, raised s.device_id) in
    rw sorted (
      (
        rw (← f.device) (raised e),
        rw own (
            filter-accepted s.device_id w (w + 1) s.next_mutation_seq s.pending_mutations unbroken
              (omega arith)),
      ))
