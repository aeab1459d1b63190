-- ===== src/Local/Operations/Queue.antt =====
-- The queue of mutations: what the sequence check accepts, and how each change of the queue keeps it.
use obsidian_yandex_disk_syn.Common.{
  ℕ, ◌+◌, ◌≤◌, ◌<◌, ◌≡◌, refl, ◌⊎◌, inl, inr, some, List, [], ◌∷◌, ◌++◌, arith, ltb, ◌==◌, ◌!=◌,
  nat_eq, bool_eq, option_eq, list_eq, Bool-cases, filter, find,
}
use obsidian_yandex_disk_syn.Common.Text.{Text}
use obsidian_yandex_disk_syn.Common.Decimal.{decimal, decimal-injective}
use obsidian_yandex_disk_syn.Types.{PendingMutation}
use obsidian_yandex_disk_syn.Local.Operations.{own_mutation_id, expect_from}

append-injective : (p s t : Text) → p ++ s ≡ p ++ t → s ≡ t
append-injective [] s t h = h
append-injective (c ∷ p) s t h = append-injective p s t (cc)

pub own_mutation_id-injective :
    (d : Text) (m n : ℕ) → own_mutation_id d m ≡ own_mutation_id d n → m ≡ n
unfolding own_mutation_id
own_mutation_id-injective d m n h =
    let tails : b':' ∷ decimal m ≡ b':' ∷ decimal n =
      append-injective d (b':' ∷ decimal m) (b':' ∷ decimal n) h in
    decimal-injective m n (cc)

module _ (d : Text) (w : ℕ) where
  -- The check accepts the queue, and expects `next` after it.
  abbrev pub Expects : ℕ → List PendingMutation → ℕ → Type 0
  Expects n ms next = expect_from d w n ms ≡ inr next

  pub expect_from-le : (n : ℕ) (ms : List PendingMutation) (next : ℕ) → Expects n ms next → n ≤ next
  unfolding expect_from
  expect_from-le n [] next h = ground arith
  expect_from-le n (m ∷ ms) next h =
      ground (arith, expect_from-le n ms next, expect_from-le (n + 1) ms next)

  pub expect_from-append :
      (n : ℕ) (ms : List PendingMutation) (next : ℕ) (m : PendingMutation)
      → Expects n ms next
      → m.id ≡ own_mutation_id d m.seq
      → m.seq ≡ next
      → w < next
      → Expects n (ms ++ m ∷ []) (next + 1)
  unfolding expect_from
  expect_from-append n [] next m h own e l = ground arith
  expect_from-append n (x ∷ ms) next m h own e l =
      ground (arith, expect_from-append n ms next m, expect_from-append (n + 1) ms next m)

  -- is_confirming the accepted prefix.
  pub expect_from-filter :
      (n : ℕ) (ms : List PendingMutation) (next : ℕ)
      → Expects n ms next
      → Expects n (filter (λ m. ltb w m.seq) ms) next
  unfolding expect_from
  expect_from-filter n [] next h = h
  expect_from-filter n (m ∷ ms) next h =
      ground (arith, expect_from-filter n ms next, expect_from-filter (n + 1) ms next)

  -- Removing an accepted mutation by its id.
  pub expect_from-remove :
      (n : ℕ) (ms : List PendingMutation) (next q : ℕ)
      → Expects n ms next
      → q ≤ w
      → Expects n (filter (λ m. m.id != own_mutation_id d q) ms) next
  unfolding expect_from
  expect_from-remove n [] next q h l = h
  expect_from-remove n (m ∷ ms) next q h l = ground (
    arith,
    expect_from-remove n ms next q,
    expect_from-remove (n + 1) ms next q,
    own_mutation_id-injective d m.seq q,
  )

  -- A queue that uses no sequence up uses none up from any other start.
  expect_from-idle :
      (n k : ℕ) (ms : List PendingMutation) (q : ℕ)
      → Expects n ms n
      → Expects k (filter (λ m. m.id != own_mutation_id d q) ms) k
  unfolding expect_from
  expect_from-idle n k [] q h = refl
  expect_from-idle n k (m ∷ ms) q h =
      ground (arith, expect_from-idle n k ms q, expect_from-le (n + 1) ms n)

  -- Discarding the newest mutation gives its sequence back.
  pub expect_from-discard :
      (n : ℕ) (ms : List PendingMutation) (q : ℕ)
      → Expects n ms (q + 1)
      → w < q
      → n ≤ q
      → Expects n (filter (λ m. m.id != own_mutation_id d q) ms) q
  unfolding expect_from
  expect_from-discard n [] q h l k = absurd (ground arith)
  expect_from-discard n (m ∷ ms) q h l k = elim (Bool-cases (m.seq == q)) [
    | inl newest ↦ ground (arith, expect_from-idle (q + 1) q ms q)
    | inr older ↦ ground (
      arith,
      expect_from-discard n ms q,
      expect_from-discard (n + 1) ms q,
      own_mutation_id-injective d m.seq q,
    )
  ]

  -- A mutation that is found is one of this device's.
  pub find-own :
      (n : ℕ) (ms : List PendingMutation) (next : ℕ) (id : Text) (m : PendingMutation)
      → Expects n ms next
      → find (λ x. x.id == id) ms ≡ some m
      → (m.id ≡ id) × (m.id ≡ own_mutation_id d m.seq)
  unfolding expect_from
  find-own n [] next id m h f = absurd (cc)
  find-own n (x ∷ ms) next id m h f =
      ground (arith, find-own n ms next id m, find-own (n + 1) ms next id m)

  expect_from-raise_past :
      (v n : ℕ) (ms : List PendingMutation) (next : ℕ)
      → Expects n ms next
      → v < n
      → expect_from d v n ms ≡ inr next ⊎ (v < w)
  unfolding expect_from
  expect_from-raise_past v n [] next h l = inl h
  expect_from-raise_past v n (m ∷ ms) next h l =
      ground (arith, expect_from-raise_past v n ms next, expect_from-raise_past v (n + 1) ms next)

  -- The canonical state accepts a prefix of the queue.
  pub expect_from-raise :
      (v n : ℕ) (ms : List PendingMutation) (next : ℕ)
      → Expects n ms next
      → w ≤ v
      → n ≤ v + 1
      → v < next
      → expect_from d v (v + 1) ms ≡ inr next
  unfolding expect_from
  expect_from-raise v n [] next h a b c = ground arith
  expect_from-raise v n (m ∷ ms) next h a b c = ground (
    arith,
    expect_from-raise v n ms next,
    expect_from-raise v (n + 1) ms next,
    expect_from-raise_past v (n + 1) ms next,
  )
