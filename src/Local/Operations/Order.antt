-- ===== src/Local/Operations/Order.antt =====
-- The order of the pending mutations: their sequences grow at any time in the life of a store.
use obsidian_yandex_disk_syn.Common.{
  ℕ, ◌+◌, ◌≤◌, ◌<◌, ◌≡◌, refl, sym, ◌∙◌, inl, inr, Bool, List, [], ◌∷◌, ◌++◌, arith, ltb, leb,
  get_or, ◌==◌, ◌!=◌, nat_eq, bool_eq, option_eq, list_eq, Bool-cases, Option-cases, filter, find,
}
use obsidian_yandex_disk_syn.Common.Text.{Text}
use obsidian_yandex_disk_syn.Common.Dict.{Dict, lookup}
use obsidian_yandex_disk_syn.Types.{PendingMutation}
use obsidian_yandex_disk_syn.Local.Operations.{
  LocalOperationStore, new_store, enqueue_mutation, floored, expect_from, ensure_sequence_floor,
}
use obsidian_yandex_disk_syn.Local.Operations.Puts.{
  retarget_last, retarget_latest_put, replace_put, to_delete, to_noop, replace_put_with,
  replace_put_with_delete, replace_put_with_noop,
}
use obsidian_yandex_disk_syn.Local.Operations.Confirm.{
  sort_by_seq, confirm_mutation, discard_newest_mutation, confirm_applied_mutations,
}
use obsidian_yandex_disk_syn.Local.Operations.Queue.{expect_from-le}
use obsidian_yandex_disk_syn.Local.Operations.Allocation.{
  Fifo, StoreStep, enqueued, retargeted, deleted, settled, confirmed, all_confirmed, discarded,
  checked, accepted, StoreReach, created, then_step, StoreReach-Fifo, ensure_sequence_floor-Fifo,
}
use obsidian_yandex_disk_syn.Local.Operations.Keys.{keys, retarget_last-keys, replace_put-keys}

-- The sequences of a queue grow.
abbrev pub Ascending : ℕ → List PendingMutation → Type 0
Ascending low [] = Unit
Ascending low (m ∷ ms) = (low ≤ m.seq) × Ascending (m.seq + 1) ms

Ascending-weaken :
    (k low : ℕ) (ms : List PendingMutation) → k ≤ low → Ascending low ms → Ascending k ms
Ascending-weaken k low [] l a = tt
Ascending-weaken k low (m ∷ ms) l a = (omega arith, a.1)

Ascending-filter :
    (p : PendingMutation → Bool) (low : ℕ) (ms : List PendingMutation)
    → Ascending low ms
    → Ascending low (filter p ms)
Ascending-filter p low [] a = tt
Ascending-filter p low (m ∷ ms) a = elim (Bool-cases (p m)) [
  | inl keeps ↦ rw keeps ((a.0, Ascending-filter p (m.seq + 1) ms a.1))
  | inr drops ↦
      rw drops (Ascending-filter p low ms (Ascending-weaken low (m.seq + 1) ms (omega arith) a.1))
]

Ascending-keys :
    (low : ℕ) (xs ys : List PendingMutation)
    → keys ys ≡ keys xs
    → Ascending low xs
    → Ascending low ys
Ascending-keys low [] [] h a = tt
Ascending-keys low [] (y ∷ ys) h a = absurd (cc)
Ascending-keys low (x ∷ xs) [] h a = absurd (cc)
Ascending-keys low (x ∷ xs) (y ∷ ys) h a =
    let (q, r) : (y.seq ≡ x.seq) × (keys ys ≡ keys xs) = ground arith in
    rw q ((a.0, Ascending-keys (x.seq + 1) xs ys r a.1))

Ascending-append :
    (d : Text) (w n low : ℕ) (ms : List PendingMutation) (m : PendingMutation)
    → Ascending low ms
    → expect_from d w n ms ≡ inr m.seq
    → w < m.seq
    → low ≤ m.seq
    → Ascending low (ms ++ m ∷ [])
unfolding expect_from
Ascending-append d w n low [] m a h l k = (k, tt)
Ascending-append d w n low (x ∷ ms) m a h l k = elim (Bool-cases (leb x.seq w)) [
  | inl done ↦ (a.0, Ascending-append d w n (x.seq + 1) ms m a.1 (ground arith) l (ground arith))
  | inr later ↦
      let rest : expect_from d w (n + 1) ms ≡ inr m.seq = ground arith in
      (
        a.0,
        Ascending-append d w (n + 1) (x.seq + 1) ms m a.1 rest l
            (ground (arith, expect_from-le d w (n + 1) ms m.seq rest)),
      )
]

replace_put_with-Ascending :
    (s : LocalOperationStore) (change : PendingMutation → PendingMutation) (id : Text)
    → ((x : PendingMutation) → ((change x).seq ≡ x.seq) × ((change x).id ≡ x.id))
    → Ascending 1 s.pending_mutations
    → Ascending 1 (replace_put_with change id s).0.pending_mutations
unfolding replace_put_with
replace_put_with-Ascending s change id k a =
    elim (Option-cases (replace_put id change s.pending_mutations)) [
      | inl off ↦ rw (replace_put_with, off) a
      | inr ((ms, m), on) ↦
          rw (replace_put_with, on)
            (Ascending-keys 1 s.pending_mutations ms
              (replace_put-keys id change s.pending_mutations ms m k on) a)
    ]

confirm_mutation-Ascending :
    (s : LocalOperationStore) (id : Text) (applied : Dict Text ℕ)
    → Ascending 1 s.pending_mutations
    → Ascending 1 (confirm_mutation id applied s).pending_mutations
unfolding confirm_mutation
confirm_mutation-Ascending s id applied a =
    elim (Option-cases (find (λ m. m.id == id) s.pending_mutations)) [
      | inl off ↦ rw (confirm_mutation, off) a
      | inr (m, on) ↦ elim (Bool-cases (ltb (get_or (lookup s.device_id applied) 0) m.seq)) [
        | inl later ↦ rw (confirm_mutation, on, later) a
        | inr done ↦ rw (confirm_mutation, on, done) (Ascending-filter _ 1 s.pending_mutations a)
      ]
    ]

discard_newest_mutation-Ascending :
    (s : LocalOperationStore) (id : Text)
    → Ascending 1 s.pending_mutations
    → Ascending 1 (discard_newest_mutation id s).pending_mutations
unfolding discard_newest_mutation
discard_newest_mutation-Ascending s id a =
    elim (Option-cases (find (λ m. m.id == id) s.pending_mutations)) [
      | inl off ↦ rw (discard_newest_mutation, off) a
      | inr (m, on) ↦ elim (Bool-cases (m.seq + 1 != s.next_mutation_seq)) [
        | inl older ↦ rw (discard_newest_mutation, on, older) a
        | inr newest ↦
            rw (discard_newest_mutation, on, newest) (Ascending-filter _ 1 s.pending_mutations a)
      ]
    ]

floored_same : (s t : LocalOperationStore) → floored s ≡ floored t → s ≡ t
floored_same s t h = cc

StoreStep-Ascending :
    (d : Text) (w : ℕ) (s : LocalOperationStore) (v : ℕ) (t : LocalOperationStore)
    → StoreStep d w s v t
    → Fifo d w s
    → Ascending 1 s.pending_mutations
    → Ascending 1 t.pending_mutations
unfolding enqueue_mutation retarget_latest_put replace_put_with_delete replace_put_with_noop
    confirm_mutation confirm_applied_mutations discard_newest_mutation ensure_sequence_floor
StoreStep-Ascending d w s v t (enqueued type path epoch base options now k e) f a =
    let low = expect_from-le d w (w + 1) s.pending_mutations s.next_mutation_seq f.unbroken in
    rw e (
      Ascending-append d w (w + 1) 1 s.pending_mutations _ a f.unbroken (omega arith) (omega arith))
StoreStep-Ascending d w s v t (retargeted old new sha baseline k e) f a =
    elim (Option-cases (retarget_last old new sha baseline s.pending_mutations)) [
      | inl off ↦ rw (e, retarget_latest_put, off) a
      | inr ((ms, m), on) ↦
          rw (e, retarget_latest_put, on)
            (Ascending-keys 1 s.pending_mutations ms
              (retarget_last-keys old new sha baseline s.pending_mutations ms m on) a)
    ]
StoreStep-Ascending d w s v t (deleted id k e) f a =
    rw e (replace_put_with-Ascending s to_delete id (λ x. (refl, refl)) a)
StoreStep-Ascending d w s v t (settled id k e) f a =
    rw e (replace_put_with-Ascending s to_noop id (λ x. (refl, refl)) a)
StoreStep-Ascending d w s v t (confirmed id applied b k e) f a =
    rw e (confirm_mutation-Ascending s id applied a)
StoreStep-Ascending d w s v t (all_confirmed applied b k e) f a =
    rw e (Ascending-filter _ 1 s.pending_mutations a)
StoreStep-Ascending d w s v t (discarded id l k e) f a =
    rw e (discard_newest_mutation-Ascending s id a)
StoreStep-Ascending d w s v t (checked k e) f a =
    let same : s ≡ t = floored_same s t (sym (ensure_sequence_floor-Fifo d w s f) ∙ e) in
    rw (← same) a
StoreStep-Ascending d w s v t (accepted b c e) f a = rw e a

pub StoreReach-Ascending :
    {d : Text} {w : ℕ} {s : LocalOperationStore}
    → StoreReach d w s
    → Ascending 1 s.pending_mutations
unfolding new_store
StoreReach-Ascending created = tt
StoreReach-Ascending (then_step r st) =
    StoreStep-Ascending _ _ _ _ _ st (StoreReach-Fifo r) (StoreReach-Ascending r)

pub sort_by_seq-Ascending :
    (low : ℕ) (ms : List PendingMutation) → Ascending low ms → sort_by_seq ms ≡ ms
unfolding sort_by_seq
sort_by_seq-Ascending low [] a = refl
sort_by_seq-Ascending low (m ∷ []) a = refl
sort_by_seq-Ascending low (m ∷ n ∷ ms) a =
    rw (sort_by_seq-Ascending (m.seq + 1) (n ∷ ms) a.1) (ground arith)
