-- ===== src/Paths/Ancestry.antt =====
-- src/utils/path-utils.ts: `PathAncestryIndex`, the paths of an index by their literal prefixes.
pub mod Answers
use obsidian_yandex_disk_syn.Common.{
  ℕ, zero, suc, Option, none, some, List, [], ◌∷◌, ◌++◌, if◌then◌else◌, get_or, nat_eq, bool_eq,
  option_eq, list_eq, length, has,
}
use obsidian_yandex_disk_syn.Common.Text.{Text, cut_last}
use obsidian_yandex_disk_syn.Common.Dict.{Dict, lookup, insert}

-- `s.slice(0, s.lastIndexOf("/"))`, where there is a slash.
unfoldable pub cut_last_slash : Text → Option Text
unfolding cut_last
cut_last_slash s = cut_last b'/' s

-- `Set.add` on a set in insertion order.
unfoldable pub add_to_set : Text → List Text → List Text
add_to_set path paths = if has paths path then paths else paths ++ path ∷ []

abbrev pub PathAncestryIndex : Type 0
PathAncestryIndex = Dict Text (List Text)

unfoldable pub add_at : PathAncestryIndex → Text → Text → PathAncestryIndex
unfolding add_to_set
add_at d ancestor path = insert ancestor (add_to_set path (get_or (lookup ancestor d) [])) d

-- The loop of `add`: from the path up, one slash less each round.
unfoldable pub add_from : ℕ → PathAncestryIndex → Text → Text → PathAncestryIndex
unfolding add_at cut_last_slash
add_from zero d ancestor path = d
add_from (suc fuel) d ancestor path = elim (cut_last_slash ancestor) [
  | none ↦ add_at d ancestor path
  | some shorter ↦ add_from fuel (add_at d ancestor path) shorter path
]

-- `add`; a round takes at least one unit off the text.
unfoldable pub add : PathAncestryIndex → Text → PathAncestryIndex
unfolding add_from
add d path = add_from (suc (length path)) d path path

-- The constructor.
unfoldable pub ancestry_index : PathAncestryIndex → List Text → PathAncestryIndex
unfolding add
ancestry_index d [] = d
ancestry_index d (path ∷ paths) = ancestry_index (add d path) paths

-- `get(path) ?? []`
unfoldable pub descendants : PathAncestryIndex → Text → List Text
descendants d path = get_or (lookup path d) []
