-- ===== src/Realtime/Rename/Sorting.antt =====
-- The folder rename that `selectFolderRenameParent` chooses is the most specific, latest one.
use obsidian_yandex_disk_syn.Common.{
  ℕ, ◌+◌, ◌≤◌, ◌≡◌, refl, sym, ◌∙◌, inl, inr, true, false, Option, none, some, List, [], ◌∷◌, arith,
  nat_eq, bool_eq, option_eq, list_eq, Bool-cases, All, Some,
}
use obsidian_yandex_disk_syn.Common.Text.{Text}
use mathlib.Core.Bool.{false≢true}
use obsidian_yandex_disk_syn.Realtime.Events.{DurableFolderRenameEvent}
use obsidian_yandex_disk_syn.Realtime.Rename.{
  FolderParent, comes_before, folder_depth, moves_path, applicable_from, insert_parent,
  sort_parents, select_from, select_folder_rename_parent,
}

-- No deeper than the other, and of the same depth no later.
abbrev pub AtMost : DurableFolderRenameEvent → DurableFolderRenameEvent → Type 0
AtMost b a =
    (folder_depth b.path ≤ folder_depth a.path)
    × (folder_depth b.path ≡ folder_depth a.path → b.created_at ≤ a.created_at)

-- The depth of a candidate is that of its folder.
abbrev IsMeasured : FolderParent → Type 0
IsMeasured p = p.depth ≡ folder_depth p.parent.path

abbrev Under : FolderParent → FolderParent → Type 0
Under a b = AtMost b.parent a.parent × IsMeasured b

-- The first candidate is at least every other.
abbrev Headed : List FolderParent → Type 0
Headed [] = Unit
Headed (a ∷ bs) = IsMeasured a × All (Under a) bs

comes_before-Under :
    (a b : FolderParent) → IsMeasured a → IsMeasured b → comes_before a b ≡ true → Under a b
unfolding comes_before
comes_before-Under a b ha hb h = ground arith

not_before-Under :
    (a b : FolderParent) → IsMeasured a → IsMeasured b → comes_before a b ≡ false → Under b a
unfolding comes_before
not_before-Under a b ha hb h = ground arith

trans-Under : (a b c : FolderParent) → Under a b → Under b c → Under a c
trans-Under a b c h k = ground arith

All-Under :
    (a b : FolderParent) (cs : List FolderParent) → Under a b → All (Under b) cs → All (Under a) cs
All-Under a b [] h k = tt
All-Under a b (c ∷ cs) h (k, ks) = (trans-Under a b c h k, All-Under a b cs h ks)

module _ {ℓ} (P : FolderParent → Type ℓ) where
  insert-All :
      (p : FolderParent) (qs : List FolderParent) → P p → All P qs → All P (insert_parent p qs)
  unfolding insert_parent
  insert-All p [] h hs = (h, tt)
  insert-All p (q ∷ qs) h (k, ks) = elim (Bool-cases (comes_before q p)) [
    | inl e ↦ rw e (k, insert-All p qs h ks)
    | inr e ↦ rw e (h, (k, ks))
  ]

  All-insert :
      (p : FolderParent) (qs : List FolderParent) → All P (insert_parent p qs) → P p × All P qs
  unfolding insert_parent
  All-insert p [] (h, hs) = (h, tt)
  All-insert p (q ∷ qs) h = elim (Bool-cases (comes_before q p)) [
    | inl e ↦
        let kept : P q × All P (insert_parent p qs) = rw e at h in
        let (a, b) = All-insert p qs kept.1 in (a, (kept.0, b))
    | inr e ↦ rw e at h
  ]

  All-sort : (ps : List FolderParent) → All P (sort_parents ps) → All P ps
  unfolding sort_parents
  All-sort [] h = tt
  All-sort (p ∷ ps) h = let (a, b) = All-insert p (sort_parents ps) h in (a, All-sort ps b)

  sort-All : (ps : List FolderParent) → All P ps → All P (sort_parents ps)
  unfolding sort_parents
  sort-All [] h = tt
  sort-All (p ∷ ps) (h, hs) = insert-All p (sort_parents ps) h (sort-All ps hs)

insert-Headed :
    (p : FolderParent) (qs : List FolderParent)
    → IsMeasured p
    → Headed qs
    → Headed (insert_parent p qs)
unfolding insert_parent
insert-Headed p [] m h = (m, tt)
insert-Headed p (q ∷ qs) m (n, h) = elim (Bool-cases (comes_before q p)) [
  | inl e ↦ rw e (n, insert-All (Under q) p qs (comes_before-Under q p n m e) h)
  | inr e ↦ let u = not_before-Under q p n m e in rw e (m, (u, All-Under p q qs u h))
]

sort-Headed : (ps : List FolderParent) → All IsMeasured ps → Headed (sort_parents ps)
unfolding sort_parents
sort-Headed [] h = tt
sort-Headed (p ∷ ps) (h, hs) = insert-Headed p (sort_parents ps) h (sort-Headed ps hs)

-- A candidate is a queued rename that moves the path, measured.
abbrev IsCandidate : List DurableFolderRenameEvent → Text → FolderParent → Type 0
IsCandidate parents child p =
    IsMeasured p × (moves_path child p.parent ≡ true) × Some (λ q. q ≡ p.parent) parents

applicable-IsCandidate :
    (order : ℕ) (parents seen : List DurableFolderRenameEvent) (child : Text)
    → ((q : DurableFolderRenameEvent) → Some (λ x. x ≡ q) parents → Some (λ x. x ≡ q) seen)
    → All (IsCandidate seen child) (applicable_from order parents child)
unfolding applicable_from
applicable-IsCandidate order [] seen child h = tt
applicable-IsCandidate order (parent ∷ parents) seen child h =
    let rest = applicable-IsCandidate (order + 1) parents seen child (λ q k. h q (inr k)) in
    elim (Bool-cases (moves_path child parent)) [
      | inl e ↦ rw e ((refl, e, h parent (inl refl)), rest)
      | inr e ↦ rw e rest
    ]

-- What holds of all candidates holds of every rename that moves the path.
module _ (child : Text) (P : DurableFolderRenameEvent → Type 0) where
  abbrev WhereMoved : DurableFolderRenameEvent → Type 0
  WhereMoved q = moves_path child q ≡ true → P q

  applicable-All :
      (order : ℕ) (parents : List DurableFolderRenameEvent)
      → All (λ (p : FolderParent). P p.parent) (applicable_from order parents child)
      → All WhereMoved parents
  unfolding applicable_from
  applicable-All order [] h = tt
  applicable-All order (parent ∷ parents) h = elim (Bool-cases (moves_path child parent)) [
    | inl e ↦
        let kept : P parent
            × All (λ (p : FolderParent). P p.parent) (applicable_from (order + 1) parents child) =
          rw e at h in
        (λ m. kept.0, applicable-All (order + 1) parents kept.1)
    | inr e ↦ (λ m. absurd (false≢true (sym e ∙ m)), applicable-All (order + 1) parents (rw e at h))
  ]

-- The rename that a selection names moves the path and is queued, and every queued rename that moves
-- the path is no deeper, and of the same depth no later; with no such rename nothing is selected.
abbrev pub IsBestParent :
    List DurableFolderRenameEvent → Text → Option DurableFolderRenameEvent → Type 0
IsBestParent parents child none = All (λ q. moves_path child q ≡ false) parents
IsBestParent parents child (some p) =
    (moves_path child p ≡ true)
    × Some (λ q. q ≡ p) parents
    × All (λ q. moves_path child q ≡ true → AtMost q p) parents

none_moved :
    (parents : List DurableFolderRenameEvent) (child : Text)
    → All (λ q. moves_path child q ≡ true → ⊥) parents
    → All (λ q. moves_path child q ≡ false) parents
none_moved [] child h = tt
none_moved (q ∷ qs) child (h, hs) = (ground arith, none_moved qs child hs)

at_most :
    (p : FolderParent) (qs : List FolderParent)
    → All (Under p) qs
    → All (λ (q : FolderParent). AtMost q.parent p.parent) qs
at_most p [] h = tt
at_most p (q ∷ qs) (h, hs) = (h.0, at_most p qs hs)

measured :
    (parents : List DurableFolderRenameEvent) (child : Text) (ps : List FolderParent)
    → All (IsCandidate parents child) ps
    → All IsMeasured ps
measured parents child [] h = tt
measured parents child (p ∷ ps) (h, hs) = (h.0, measured parents child ps hs)

selected-IsBestParent :
    (parents : List DurableFolderRenameEvent) (child : Text) (candidates : List FolderParent)
    → All (IsCandidate parents child) candidates
    → Headed candidates
    → ((P : DurableFolderRenameEvent → Type 0)
        → All (λ (p : FolderParent). P p.parent) candidates
        → All (λ q. moves_path child q ≡ true → P q) parents)
    → IsBestParent parents child (select_from candidates).parent
unfolding select_from
selected-IsBestParent parents child [] c h k = none_moved parents child (k (λ q. ⊥) tt)
selected-IsBestParent parents child (p ∷ []) (c, cs) (m, h) k =
    (c.1, c.2, k (λ q. AtMost q p.parent) ((omega arith, λ e. omega arith), tt))
selected-IsBestParent parents child (p ∷ q ∷ qs) (c, cs) (m, h) k =
    (c.1, c.2, k (λ q. AtMost q p.parent) ((omega arith, λ e. omega arith), at_most p (q ∷ qs) h))

-- The selection of the folder rename for a child path is the best one: it moves the path and is
-- queued, and every queued rename that moves the path is no deeper, and of the same depth no later;
-- nothing is selected only if no queued rename moves the path.
pub select_folder_rename_parent-IsBestParent :
    (parents : List DurableFolderRenameEvent) (child : Text)
    → IsBestParent parents child (select_folder_rename_parent parents child).parent
unfolding select_folder_rename_parent
select_folder_rename_parent-IsBestParent parents child =
    let candidates = applicable-IsCandidate 0 parents parents child (λ q k. k) in
    selected-IsBestParent parents child (sort_parents (applicable_from 0 parents child))
      (sort-All (IsCandidate parents child) _ candidates)
      (sort-Headed _ (measured parents child _ candidates))
      (λ P h.
        applicable-All child P 0 parents
          (All-sort (λ (p : FolderParent). P p.parent) (applicable_from 0 parents child) h))
