-- ===== src/Local/Operations/Keys.antt =====
-- Changes in place: the sequences and the ids of the pending mutations.
use obsidian_yandex_disk_syn.Common.{
  ℕ, ◌+◌, ◌≡◌, refl, inl, inr, Option, some, List, [], ◌∷◌, arith, nat_eq, bool_eq, option_eq,
  list_eq, Option-cases,
}
use obsidian_yandex_disk_syn.Common.Text.{Text}
use obsidian_yandex_disk_syn.Types.{PendingMutation}
use obsidian_yandex_disk_syn.Local.Operations.{expect_from}
use obsidian_yandex_disk_syn.Local.Operations.Puts.{retarget_last, replace_put}

-- A change in place keeps the sequence and the id of every mutation.
abbrev pub keys : List PendingMutation → List (ℕ × Text)
keys [] = []
keys (m ∷ ms) = (m.seq, m.id) ∷ keys ms

pub expect_from-keys :
    (d : Text) (w n : ℕ) (xs ys : List PendingMutation)
    → keys xs ≡ keys ys
    → expect_from d w n xs ≡ expect_from d w n ys
unfolding expect_from
expect_from-keys d w n [] [] h = refl
expect_from-keys d w n [] (y ∷ ys) h = cc
expect_from-keys d w n (x ∷ xs) [] h = cc
expect_from-keys d w n (x ∷ xs) (y ∷ ys) h =
    let (q, i, r) : (x.seq ≡ y.seq) × (x.id ≡ y.id) × (keys xs ≡ keys ys) = ground arith in
    rw (q, i, expect_from-keys d w n xs ys r, expect_from-keys d w (n + 1) xs ys r) refl

pub retarget_last-keys :
    (old new sha : Text) (baseline : Option Text) (xs ys : List PendingMutation)
    (m : PendingMutation)
    → retarget_last old new sha baseline xs ≡ some (ys, m)
    → keys ys ≡ keys xs
unfolding retarget_last
retarget_last-keys old new sha baseline [] ys m h = absurd (cc)
retarget_last-keys old new sha baseline (x ∷ xs) ys m h =
    elim (Option-cases (retarget_last old new sha baseline xs)) [
      | inl e ↦ ground arith
      | inr ((xs', found), e) ↦
          ground (arith, retarget_last-keys old new sha baseline xs xs' found e)
    ]

pub replace_put-keys :
    (id : Text) (change : PendingMutation → PendingMutation) (xs ys : List PendingMutation)
    (m : PendingMutation)
    → ((x : PendingMutation) → ((change x).seq ≡ x.seq) × ((change x).id ≡ x.id))
    → replace_put id change xs ≡ some (ys, m)
    → keys ys ≡ keys xs
unfolding replace_put
replace_put-keys id change [] ys m k h = absurd (cc)
replace_put-keys id change (x ∷ xs) ys m k h = elim (Option-cases (replace_put id change xs)) [
  | inl e ↦ ground (arith, k x)
  | inr ((xs', found), e) ↦ ground (arith, k x, replace_put-keys id change xs xs' found k e)
]
