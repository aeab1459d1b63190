-- ===== src/Paths/Ancestry/Answers.antt =====
-- The index of ancestors answers the paths at or below a folder.
use obsidian_yandex_disk_syn.Common.{
  ℕ, zero, suc, ◌<◌, ◌≡◌, refl, inl, inr, Bool, false, ◌&&◌, ◌||◌, none, some, List, [], ◌∷◌, ◌++◌,
  arith, get_or, is_some, ◌==◌, nat_eq, bool_eq, option_eq, list_eq, Option-cases, length, has,
}
use obsidian_yandex_disk_syn.Common.Text.{Text, strip_prefix, cut_last}
use obsidian_yandex_disk_syn.Common.Dict.{lookup, lookup-insert}
use obsidian_yandex_disk_syn.Paths.Ancestry.{
  cut_last_slash, add_to_set, PathAncestryIndex, add_at, add_from, add, ancestry_index, descendants,
}

-- The path continues the folder after a slash.
abbrev continues : Text → Text → Bool
continues folder path = is_some (strip_prefix (folder ++ b'/' ∷ []) path)

-- The path is the folder or continues it.
abbrev pub at_or_below : Text → Text → Bool
at_or_below folder path = path == folder || continues folder path

continues_of_none : (folder path : Text) → cut_last b'/' path ≡ none → continues folder path ≡ false
unfolding cut_last
continues_of_none [] [] h = refl
continues_of_none (d ∷ folder) [] h = refl
continues_of_none [] (c ∷ path) h = ground arith
continues_of_none (d ∷ folder) (c ∷ path) h = ground (arith, continues_of_none folder path)

continues_of_cut :
    (folder path shorter : Text)
    → cut_last b'/' path ≡ some shorter
    → continues folder path ≡ at_or_below folder shorter
unfolding cut_last
continues_of_cut folder [] shorter h = cc
continues_of_cut [] (c ∷ path) shorter h = ground arith
continues_of_cut (d ∷ folder) (c ∷ path) shorter h = elim (Option-cases (cut_last b'/' path)) [
  | inl e ↦ ground (arith, continues_of_none folder path e)
  | inr (t, e) ↦ ground (arith, continues_of_cut folder path t e)
]

length-cut_last :
    (path shorter : Text) → cut_last b'/' path ≡ some shorter → length shorter < length path
unfolding cut_last
length-cut_last [] shorter h = cc
length-cut_last (c ∷ path) shorter h = elim (Option-cases (cut_last b'/' path)) [
  | inl e ↦ ground arith
  | inr (t, e) ↦ ground (arith, length-cut_last path t e)
]

has-append : (xs ys : List Text) (x : Text) → has (xs ++ ys) x ≡ (has xs x || has ys x)
has-append [] ys x = refl
has-append (y ∷ xs) ys x = ground (arith, has-append xs ys x)

has-add_to_set :
    (path : Text) (paths : List Text) (other : Text)
    → has (add_to_set path paths) other ≡ (has paths other || path == other)
unfolding add_to_set
has-add_to_set path paths other = ground (arith, has-append paths (path ∷ []) other)

has-add_at :
    (d : PathAncestryIndex) (ancestor path folder other : Text)
    → has (descendants (add_at d ancestor path) folder) other
      ≡ (has (descendants d folder) other || (ancestor == folder && path == other))
unfolding add_at descendants
has-add_at d ancestor path folder other = ground (
  arith,
  lookup-insert folder ancestor (add_to_set path (get_or (lookup ancestor d) [])) d,
  has-add_to_set path (get_or (lookup ancestor d) []) other,
)

has-add_from :
    (fuel : ℕ) (d : PathAncestryIndex) (ancestor path folder other : Text)
    → length ancestor < fuel
    → has (descendants (add_from fuel d ancestor path) folder) other
      ≡ (has (descendants d folder) other || (path == other && at_or_below folder ancestor))
unfolding add_from cut_last_slash
has-add_from zero d ancestor path folder other h = absurd (omega arith)
has-add_from (suc fuel) d ancestor path folder other h =
    elim (Option-cases (cut_last b'/' ancestor)) [
      | inl e ↦
          ground
            (arith, has-add_at d ancestor path folder other, continues_of_none folder ancestor e)
      | inr (shorter, e) ↦
          let less = length-cut_last ancestor shorter e in
          ground (
            arith,
            has-add_at d ancestor path folder other,
            continues_of_cut folder ancestor shorter e,
            has-add_from fuel (add_at d ancestor path) shorter path folder other (omega arith),
          )
    ]

has-ancestry_index :
    (d : PathAncestryIndex) (paths : List Text) (folder other : Text)
    → has (descendants (ancestry_index d paths) folder) other
      ≡ (has (descendants d folder) other || (has paths other && at_or_below folder other))
unfolding ancestry_index add
has-ancestry_index d [] folder other = ground arith
has-ancestry_index d (path ∷ paths) folder other = ground (
  arith,
  has-ancestry_index (add_from (suc (length path)) d path path) paths folder other,
  has-add_from (suc (length path)) d path path folder other (omega arith),
)

-- The index built from a list of paths answers for a folder exactly the paths of the list that are
-- the folder or continue it after a slash.
pub ancestry_index_lem :
    (paths : List Text) (folder path : Text)
    → has (descendants (ancestry_index [] paths) folder) path
      ≡ (has paths path && at_or_below folder path)
unfolding descendants lookup
ancestry_index_lem paths folder path = has-ancestry_index [] paths folder path
