-- ===== src/Canonical/Folder/Tombstones.antt =====
-- The folder tombstone that covers a path.
use obsidian_yandex_disk_syn.Common.{
  ℕ, suc, ◌≤◌, ◌≡◌, refl, sym, ap, ◌∙◌, subst, ◌≢◌, ◌⊎◌, inl, inr, Option, none, some, List, [],
  ◌∷◌, ◌++◌, arith, nat_eq, bool_eq, option_eq, list_eq, All, Some,
}
use obsidian_yandex_disk_syn.Common.Text.{Text, trim_slashes, split_slash, join_slash}
use obsidian_yandex_disk_syn.Common.Dict.{Dict, lookup}
use mathlib.Core.Path.{ap₂}
use mathlib.Core.List.{append_assoc}
use obsidian_yandex_disk_syn.Common.Slashes.{
  trim_slashes-split, split_slash-ne-nil, join-split, join-append, split-append,
}
use obsidian_yandex_disk_syn.Types.{FolderTombstone}
use obsidian_yandex_disk_syn.Canonical.Folder.{
  newer_tombstone, find_tombstone_from, find_folder_tombstone,
}

-- The keys of the proper ancestors of a path, the shortest first.
abbrev pub ancestors_from : List Text → List Text → List Text
ancestors_from done [] = []
ancestors_from done (segment ∷ []) = []
ancestors_from done (segment ∷ next ∷ more) =
    join_slash (done ++ segment ∷ []) ∷ ancestors_from (done ++ segment ∷ []) (next ∷ more)

unfoldable pub ancestors : Text → List Text
ancestors path = ancestors_from [] (split_slash (trim_slashes path))

-- How new a tombstone is, where none is older than all.
abbrev pub age : Option FolderTombstone → ℕ
age none = 0
age (some t) = suc t.changed_revision

newer_tombstone-age :
    (result here : Option FolderTombstone)
    → (age result ≤ age (newer_tombstone result here))
      × (age here ≤ age (newer_tombstone result here))
unfolding newer_tombstone
newer_tombstone-age result here = ground arith

newer_tombstone-either :
    (result here : Option FolderTombstone)
    → (newer_tombstone result here ≡ result) ⊎ (newer_tombstone result here ≡ here)
unfolding newer_tombstone
newer_tombstone-either result here = ground arith

module _ (tombstones : Dict Text FolderTombstone) where
  age-find_tombstone_from :
      (done rest : List Text) (result : Option FolderTombstone)
      → (age result ≤ age (find_tombstone_from tombstones done rest result))
        × All
            (λ key.
              age (lookup key tombstones) ≤ age (find_tombstone_from tombstones done rest result))
            (ancestors_from done rest)
  unfolding find_tombstone_from
  age-find_tombstone_from done [] result = (omega arith, tt)
  age-find_tombstone_from done (segment ∷ []) result = (omega arith, tt)
  age-find_tombstone_from done (segment ∷ next ∷ more) result =
      let here = lookup (join_slash (done ++ segment ∷ [])) tombstones in
      let (best, later) =
        age-find_tombstone_from (done ++ segment ∷ []) (next ∷ more)
          (newer_tombstone result here) in
      let (kept, new) = newer_tombstone-age result here in (omega arith, (omega arith, later))

  find_tombstone_from_found :
      (done rest : List Text) (result : Option FolderTombstone) (t : FolderTombstone)
      → find_tombstone_from tombstones done rest result ≡ some t
      → (result ≡ some t) ⊎ Some (λ key. lookup key tombstones ≡ some t) (ancestors_from done rest)
  unfolding find_tombstone_from
  find_tombstone_from_found done [] result t h = inl h
  find_tombstone_from_found done (segment ∷ []) result t h = inl h
  find_tombstone_from_found done (segment ∷ next ∷ more) result t h =
      let here = lookup (join_slash (done ++ segment ∷ [])) tombstones in
      elim (find_tombstone_from_found (done ++ segment ∷ []) (next ∷ more)
        (newer_tombstone result here) t h) [
          | inl now ↦ elim (newer_tombstone-either result here) [
            | inl old ↦ inl (sym old ∙ now)
            | inr new ↦ inr (inl (sym new ∙ now))
          ]
          | inr later ↦ inr (inr later)
        ]

-- A folder, as the index keys it: no slash at its end.
abbrev pub Contains : (folder path : Text) → Type 0
Contains folder path = (rest : Text) × (path ≡ folder ++ b'/' ∷ rest)

join-append_last :
    (done more : List Text) (segment next : Text)
    → join_slash ((done ++ segment ∷ []) ++ next ∷ more)
      ≡ join_slash (done ++ segment ∷ []) ++ b'/' ∷ join_slash (next ∷ more)
join-append_last [] more segment next = join-append segment next [] more
join-append_last (x ∷ done) more segment next = join-append x next (done ++ segment ∷ []) more

ancestors_from-Contains :
    (path : Text) (done rest : List Text)
    → path ≡ join_slash (done ++ rest)
    → All (λ key. Contains key path) (ancestors_from done rest)
ancestors_from-Contains path done [] e = tt
ancestors_from-Contains path done (segment ∷ []) e = tt
ancestors_from-Contains path done (segment ∷ next ∷ more) e =
    let same = e ∙ ap join_slash (sym (append_assoc done (segment ∷ []) (next ∷ more))) in
    (
      (join_slash (next ∷ more), same ∙ join-append_last done more segment next),
      ancestors_from-Contains path (done ++ segment ∷ []) (next ∷ more) same,
    )

Contains-longer : (folder path : Text) → Contains folder (trim_slashes path) → Contains folder path
Contains-longer folder path (rest, e) =
    let (end, f) = trim_slashes-split path in
    (rest ++ end, f ∙ ap (λ p. p ++ end) e ∙ append_assoc folder (b'/' ∷ rest) end)

All-map {ℓ} :
    {A : Type ℓ} (P Q : A → Type 0) → ((a : A) → P a → Q a) → (xs : List A) → All P xs → All Q xs
All-map P Q f [] h = tt
All-map P Q f (x ∷ xs) (p, h) = (f x p, All-map P Q f xs h)

-- Each key that the search looks up is a folder that contains the path.
ancestors-Contains : (path : Text) → All (λ key. Contains key path) (ancestors path)
unfolding ancestors
ancestors-Contains path =
    All-map (λ key. Contains key (trim_slashes path)) (λ key. Contains key path)
      (λ key. Contains-longer key path) (ancestors_from [] (split_slash (trim_slashes path)))
      (ancestors_from-Contains (trim_slashes path) [] (split_slash (trim_slashes path))
        (sym (join-split (trim_slashes path))))

ancestors_from-all :
    (done : List Text) (x y : Text) (xs ys : List Text)
    → Some (λ key. key ≡ join_slash (done ++ x ∷ xs)) (ancestors_from done (x ∷ xs ++ y ∷ ys))
ancestors_from-all done x y [] ys = inl refl
ancestors_from-all done x y (z ∷ xs) ys = inr (
    subst
      (λ parts.
        Some (λ key. key ≡ join_slash parts) (ancestors_from (done ++ x ∷ []) (z ∷ xs ++ y ∷ ys)))
      (append_assoc done (x ∷ []) (z ∷ xs)) (ancestors_from-all (done ++ x ∷ []) z y xs ys))

split-cons : (s : Text) → (part : Text) × (parts : List Text) × (split_slash s ≡ part ∷ parts)
split-cons s = go (split_slash s) (split_slash-ne-nil s)
  where
    go : (l : List Text) → l ≢ [] → (part : Text) × (parts : List Text) × (l ≡ part ∷ parts)
    go [] h = absurd (h refl)
    go (part ∷ parts) h = (part, parts, refl)

-- Each folder that contains the path, trailing slashes aside, is looked up.
ancestors-all :
    (folder path : Text)
    → Contains folder (trim_slashes path)
    → Some (λ key. key ≡ folder) (ancestors path)
unfolding ancestors
ancestors-all folder path (rest, e) =
    let (x, xs, ex) = split-cons folder in
    let (y, ys, ey) = split-cons rest in
    let split : split_slash (trim_slashes path) ≡ x ∷ xs ++ y ∷ ys =
      ap split_slash e ∙ split-append folder rest ∙ ap₂ (λ a b. a ++ b) ex ey in
    let back : join_slash (x ∷ xs) ≡ folder = ap join_slash (sym ex) ∙ join-split folder in
    rw split (
      subst (λ f. Some (λ key. key ≡ f) (ancestors_from [] (x ∷ xs ++ y ∷ ys))) back
        (ancestors_from-all [] x y xs ys))

Some-age :
    (tombstones : Dict Text FolderTombstone) (bound : ℕ) (folder : Text) (keys : List Text)
    → Some (λ key. key ≡ folder) keys
    → All (λ key. age (lookup key tombstones) ≤ bound) keys
    → age (lookup folder tombstones) ≤ bound
Some-age tombstones bound folder [] s _ = elim s [ ]
Some-age tombstones bound folder (key ∷ keys) (inl e) (h, _) =
    subst (λ k. age (lookup k tombstones) ≤ bound) e h
Some-age tombstones bound folder (key ∷ keys) (inr s) (_, h) =
    Some-age tombstones bound folder keys s h

Some-Contains :
    (tombstones : Dict Text FolderTombstone) (path : Text) (t : FolderTombstone) (keys : List Text)
    → Some (λ key. lookup key tombstones ≡ some t) keys
    → All (λ key. Contains key path) keys
    → (key : Text) × (lookup key tombstones ≡ some t) × Contains key path
Some-Contains tombstones path t [] s _ = elim s [ ]
Some-Contains tombstones path t (key ∷ keys) (inl e) (c, _) = (key, e, c)
Some-Contains tombstones path t (key ∷ keys) (inr s) (_, h) =
    Some-Contains tombstones path t keys s h

module _ (path : Text) (tombstones : Dict Text FolderTombstone) where
  -- No tombstone of a folder that contains the path, trailing slashes of the path aside, is newer
  -- than the one that the search returns; where it returns none, no such folder has a tombstone.
  pub find_folder_tombstone_newest :
      (folder : Text)
      → Contains folder (trim_slashes path)
      → age (lookup folder tombstones) ≤ age (find_folder_tombstone path tombstones)
  unfolding find_folder_tombstone ancestors
  find_folder_tombstone_newest folder c =
      Some-age tombstones _ folder (ancestors path) (ancestors-all folder path c)
        (age-find_tombstone_from tombstones [] (split_slash (trim_slashes path)) none).1

  -- A tombstone that the search returns is the one that the index keeps for some folder which
  -- contains the path.
  pub find_folder_tombstone_found :
      (t : FolderTombstone)
      → find_folder_tombstone path tombstones ≡ some t
      → (folder : Text) × (lookup folder tombstones ≡ some t) × Contains folder path
  unfolding find_folder_tombstone ancestors
  find_folder_tombstone_found t h =
      elim (find_tombstone_from_found tombstones [] (split_slash (trim_slashes path)) none t h) [
        | inl e ↦ cc
        | inr s ↦ Some-Contains tombstones path t (ancestors path) s (ancestors-Contains path)
      ]
