-- ===== src/Local/Operations/Allocation.antt =====
-- The allocation of sequences over the life of the queue.
use obsidian_yandex_disk_syn.Common.{
  ℕ, ◌+◌, ◌-◌, ◌≤◌, ◌<◌, ◌≡◌, refl, sym, ap, ◌∙◌, inl, inr, Option, List, arith, ltb, get_or, ◌==◌,
  ◌!=◌, nat_eq, bool_eq, option_eq, list_eq, Bool-cases, Option-cases, find,
}
use obsidian_yandex_disk_syn.Common.Text.{Text}
use obsidian_yandex_disk_syn.Common.Dict.{Dict, lookup}
use obsidian_yandex_disk_syn.Types.{PendingMutation, PendingMutationType}
use obsidian_yandex_disk_syn.Local.Operations.{
  LocalOperationStore, MutationOptions, new_store, own_mutation_id, enqueue_mutation, floored,
  expect_from, ensure_sequence_floor,
}
use obsidian_yandex_disk_syn.Local.Operations.Puts.{
  retarget_last, retarget_latest_put, replace_put, to_delete, to_noop, replace_put_with,
  replace_put_with_delete, replace_put_with_noop,
}
use obsidian_yandex_disk_syn.Local.Operations.Confirm.{
  confirm_mutation, discard_newest_mutation, confirm_applied_mutations,
}
use obsidian_yandex_disk_syn.Local.Operations.Queue.{
  expect_from-le, expect_from-append, expect_from-filter, expect_from-remove, expect_from-discard,
  find-own, expect_from-raise,
}
use obsidian_yandex_disk_syn.Local.Operations.Keys.{
  keys, expect_from-keys, retarget_last-keys, replace_put-keys,
}

-- What the queue of a device satisfies beside a canonical state that accepted its first `w`
-- mutations: it holds this device's mutations, and those after `w` without a gap.
pub record Fifo (d : Text) (w : ℕ) (s : LocalOperationStore) : Type 0 where
  pub device : s.device_id ≡ d
  pub unbroken : expect_from d w (w + 1) s.pending_mutations ≡ inr s.next_mutation_seq

-- One operation on the store, or one acceptance by the canonical state, whose watermark for the
-- device is `w` before and `v` after.
pub data StoreStep (d : Text) (w : ℕ) (s : LocalOperationStore) (v : ℕ) (t : LocalOperationStore)
    : Type 0 where
  enqueued :
      (type : PendingMutationType) (path : Text) (epoch : Option Text) (base : Option ℕ)
      (options : MutationOptions) (now : ℕ)
      → v ≡ w
      → t ≡ (enqueue_mutation type path epoch base options now s).0
      → StoreStep d w s v t
  retargeted :
      (old new sha : Text) (baseline : Option Text)
      → v ≡ w
      → t ≡ (retarget_latest_put old new sha baseline s).0
      → StoreStep d w s v t
  deleted : (id : Text) → v ≡ w → t ≡ (replace_put_with_delete id s).0 → StoreStep d w s v t
  settled : (id : Text) → v ≡ w → t ≡ (replace_put_with_noop id s).0 → StoreStep d w s v t
  confirmed :
      (id : Text) (applied : Dict Text ℕ)
      → get_or (lookup s.device_id applied) 0 ≡ w
      → v ≡ w
      → t ≡ confirm_mutation id applied s
      → StoreStep d w s v t
  all_confirmed :
      (applied : Dict Text ℕ)
      → get_or (lookup s.device_id applied) 0 ≡ w
      → v ≡ w
      → t ≡ confirm_applied_mutations applied s
      → StoreStep d w s v t
  discarded :
      (id : Text)
      → w + 1 < s.next_mutation_seq
      → v ≡ w
      → t ≡ discard_newest_mutation id s
      → StoreStep d w s v t
  checked : v ≡ w → ensure_sequence_floor w s ≡ floored t → StoreStep d w s v t
  accepted : w ≤ v → v < s.next_mutation_seq → t ≡ s → StoreStep d w s v t

same_keys-Fifo :
    (d : Text) (w : ℕ) (s : LocalOperationStore) (ms : List PendingMutation)
    → keys ms ≡ keys s.pending_mutations
    → Fifo d w s
    → Fifo d w (record s { pending_mutations = ms })
same_keys-Fifo d w s ms k f = record {
  device = f.device;
  unbroken = expect_from-keys d w (w + 1) ms s.pending_mutations k ∙ f.unbroken;
}

enqueue_mutation-Fifo :
    (d : Text) (w : ℕ) (s : LocalOperationStore) (type : PendingMutationType) (path : Text)
    (epoch : Option Text) (base : Option ℕ) (options : MutationOptions) (now : ℕ)
    → Fifo d w s
    → Fifo d w (enqueue_mutation type path epoch base options now s).0
unfolding enqueue_mutation
enqueue_mutation-Fifo d w s type path epoch base options now f = record {
  device = f.device;
  unbroken =
      expect_from-append d w (w + 1) s.pending_mutations s.next_mutation_seq _ f.unbroken
        (ap (λ (x : Text). own_mutation_id x s.next_mutation_seq) f.device) refl
        (omega
          (arith, expect_from-le d w (w + 1) s.pending_mutations s.next_mutation_seq f.unbroken));
}

retarget_latest_put-Fifo :
    (d : Text) (w : ℕ) (s : LocalOperationStore) (old new sha : Text) (baseline : Option Text)
    → Fifo d w s
    → Fifo d w (retarget_latest_put old new sha baseline s).0
unfolding retarget_latest_put
retarget_latest_put-Fifo d w s old new sha baseline f =
    elim (Option-cases (retarget_last old new sha baseline s.pending_mutations)) [
      | inl e ↦ rw (retarget_latest_put, e) f
      | inr ((ms, m), e) ↦
          rw (retarget_latest_put, e)
            (same_keys-Fifo d w s ms
              (retarget_last-keys old new sha baseline s.pending_mutations ms m e) f)
    ]

replace_put_with-Fifo :
    (d : Text) (w : ℕ) (s : LocalOperationStore) (change : PendingMutation → PendingMutation)
    (id : Text)
    → ((x : PendingMutation) → ((change x).seq ≡ x.seq) × ((change x).id ≡ x.id))
    → Fifo d w s
    → Fifo d w (replace_put_with change id s).0
unfolding replace_put_with
replace_put_with-Fifo d w s change id k f =
    elim (Option-cases (replace_put id change s.pending_mutations)) [
      | inl e ↦ rw (replace_put_with, e) f
      | inr ((ms, m), e) ↦
          rw (replace_put_with, e)
            (same_keys-Fifo d w s ms (replace_put-keys id change s.pending_mutations ms m k e) f)
    ]

confirm_mutation-Fifo :
    (d : Text) (w : ℕ) (s : LocalOperationStore) (id : Text) (applied : Dict Text ℕ)
    → get_or (lookup s.device_id applied) 0 ≡ w
    → Fifo d w s
    → Fifo d w (confirm_mutation id applied s)
unfolding confirm_mutation
confirm_mutation-Fifo d w s id applied a f =
    elim (Option-cases (find (λ m. m.id == id) s.pending_mutations)) [
      | inl e ↦ rw (confirm_mutation, e) f
      | inr (m, e) ↦ elim (Bool-cases (ltb (get_or (lookup s.device_id applied) 0) m.seq)) [
        | inl later ↦ rw (confirm_mutation, e, later) f
        | inr done ↦
            let own =
              find-own d w (w + 1) s.pending_mutations s.next_mutation_seq id m f.unbroken e in
            rw (confirm_mutation, e, done, sym own.0 ∙ own.1)
              (record {
                device = f.device;
                unbroken =
                    expect_from-remove d w (w + 1) s.pending_mutations s.next_mutation_seq m.seq
                      f.unbroken (ground arith);
              })
      ]
    ]

confirm_applied_mutations-Fifo :
    (d : Text) (w : ℕ) (s : LocalOperationStore) (applied : Dict Text ℕ)
    → get_or (lookup s.device_id applied) 0 ≡ w
    → Fifo d w s
    → Fifo d w (confirm_applied_mutations applied s)
unfolding confirm_applied_mutations
confirm_applied_mutations-Fifo d w s applied a f = record {
  device = f.device;
  unbroken =
      rw a (expect_from-filter d w (w + 1) s.pending_mutations s.next_mutation_seq f.unbroken);
}

discard_newest_mutation-Fifo :
    (d : Text) (w : ℕ) (s : LocalOperationStore) (id : Text)
    → w + 1 < s.next_mutation_seq
    → Fifo d w s
    → Fifo d w (discard_newest_mutation id s)
unfolding discard_newest_mutation
discard_newest_mutation-Fifo d w s id l f =
    elim (Option-cases (find (λ m. m.id == id) s.pending_mutations)) [
      | inl e ↦ rw (discard_newest_mutation, e) f
      | inr (m, e) ↦ elim (Bool-cases (m.seq + 1 != s.next_mutation_seq)) [
        | inl older ↦ rw (discard_newest_mutation, e, older) f
        | inr newest ↦
            let own =
              find-own d w (w + 1) s.pending_mutations s.next_mutation_seq id m f.unbroken e in
            let (last_one, less) : (s.next_mutation_seq ≡ m.seq + 1)
                × (s.next_mutation_seq - 1 ≡ m.seq) =
              ground arith in
            rw (discard_newest_mutation, e, newest, sym own.0 ∙ own.1)
              (record {
                device = f.device;
                unbroken = rw less (
                    expect_from-discard d w (w + 1) s.pending_mutations m.seq
                      (rw last_one at f.unbroken) (omega arith) (omega arith));
              })
      ]
    ]

pub ensure_sequence_floor-Fifo :
    (d : Text) (w : ℕ) (s : LocalOperationStore)
    → Fifo d w s
    → ensure_sequence_floor w s ≡ floored s
unfolding ensure_sequence_floor
ensure_sequence_floor-Fifo d w s f =
    let e : expect_from s.device_id w (w + 1) s.pending_mutations ≡ inr s.next_mutation_seq =
      rw f.device f.unbroken in
    ground arith

StoreStep-Fifo :
    (d : Text) (w : ℕ) (s : LocalOperationStore) (v : ℕ) (t : LocalOperationStore)
    → StoreStep d w s v t
    → Fifo d w s
    → Fifo d v t
unfolding replace_put_with_delete replace_put_with_noop
StoreStep-Fifo d w s v t (enqueued type path epoch base options now k e) f =
    rw (k, e) (enqueue_mutation-Fifo d w s type path epoch base options now f)
StoreStep-Fifo d w s v t (retargeted old new sha baseline k e) f =
    rw (k, e) (retarget_latest_put-Fifo d w s old new sha baseline f)
StoreStep-Fifo d w s v t (deleted id k e) f =
    rw (k, e) (replace_put_with-Fifo d w s to_delete id (λ x. (refl, refl)) f)
StoreStep-Fifo d w s v t (settled id k e) f =
    rw (k, e) (replace_put_with-Fifo d w s to_noop id (λ x. (refl, refl)) f)
StoreStep-Fifo d w s v t (confirmed id applied a k e) f =
    rw (k, e) (confirm_mutation-Fifo d w s id applied a f)
StoreStep-Fifo d w s v t (all_confirmed applied a k e) f =
    rw (k, e) (confirm_applied_mutations-Fifo d w s applied a f)
StoreStep-Fifo d w s v t (discarded id l k e) f =
    rw (k, e) (discard_newest_mutation-Fifo d w s id l f)
StoreStep-Fifo d w s v t (checked k e) f =
    let same : s ≡ t = ground (arith, ensure_sequence_floor-Fifo d w s f) in rw (k, ← same) f
StoreStep-Fifo d w s v t (accepted a b e) f = rw e (record {
  device = f.device;
  unbroken =
      expect_from-raise d w v (w + 1) s.pending_mutations s.next_mutation_seq f.unbroken a
        (omega arith) b;
})

-- The life of a store, from the constructor on.
pub data StoreReach (d : Text) : ℕ → LocalOperationStore → Type 0 where
  created : StoreReach d 0 (new_store d)
  then_step :
      {w v : ℕ} {s t : LocalOperationStore}
      → StoreReach d w s
      → StoreStep d w s v t
      → StoreReach d v t

pub StoreReach-Fifo : {d : Text} {w : ℕ} {s : LocalOperationStore} → StoreReach d w s → Fifo d w s
unfolding new_store expect_from
StoreReach-Fifo created = record { device = refl; unbroken = refl }
StoreReach-Fifo (then_step r st) = StoreStep-Fifo _ _ _ _ _ st (StoreReach-Fifo r)

-- Over the life of a store the queue never breaks: whatever is enqueued, retargeted, turned into a
-- deletion or a no-op, confirmed singly or together, discarded before it was accepted, checked, or
-- accepted by the canonical state in between, `ensureSequenceFloor` at the current watermark
-- throws no error and finds nothing to correct.
pub ensure_sequence_floor-StoreReach :
    (d : Text) (w : ℕ) (s : LocalOperationStore)
    → StoreReach d w s
    → ensure_sequence_floor w s ≡ floored s
ensure_sequence_floor-StoreReach d w s r = ensure_sequence_floor-Fifo d w s (StoreReach-Fifo r)
