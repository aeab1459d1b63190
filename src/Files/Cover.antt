-- ===== src/Files/Cover.antt =====
-- src/sync/files/deletion-cover.ts: which subtrees a deletion removes as a whole.
pub mod Safety
use obsidian_yandex_disk_syn.Common.{
  ℕ, zero, suc, ◌+◌, ◌-◌, ◌≤◌, ◌<◌, ◌≡◌, refl, sym, ap, ◌∙◌, subst, ◌≢◌, ◌↔◌, ◌⊎◌, inl, inr, Bool,
  true, false, not, ◌&&◌, ◌||◌, Option, none, some, List, [], ◌∷◌, ◌++◌, map, arith, ltb, leb,
  if◌then◌else◌, get_or, truthy, truthy_list, is_some, ◌==◌, ◌!=◌, nat_eq, bool_eq, option_eq,
  list_eq, Bool-cases, Option-cases, length, length-append, any, all, filter, find, last, All, Some,
  has, eq_of_test, test_self, Eq, max, min,
}
use obsidian_yandex_disk_syn.Common.Text.{
  Text, codes, strip_prefix, starts_with, strip_prefix-append, append-strip_prefix, trim_slashes,
  split_slash, join_slash,
}
use obsidian_yandex_disk_syn.Common.Dict.{
  Dict, lookup, insert, erase, NodupKeys, lookup-insert, lookup-insert_self, lookup-erase,
}
use obsidian_yandex_disk_syn.Types.{RecursiveDeleteAction, DeleteKind, file, dir}
use obsidian_yandex_disk_syn.Paths.Normal.{normalize_path, get_ancestor_directories}

abbrev pub Entries : Type 0
Entries = Dict Text RecursiveDeleteAction

-- `new Map(resources.map((entry) => [entry.path, entry]))`
unfoldable pub entries_by_path : Entries → List RecursiveDeleteAction → Entries
entries_by_path entries [] = entries
entries_by_path entries (entry ∷ resources) =
    entries_by_path (insert entry.path entry entries) resources

unfoldable pub add_directories : Entries → List Text → Entries
add_directories entries [] = entries
add_directories entries (path ∷ paths) =
    if is_some (lookup path entries)
    then add_directories entries paths
    else add_directories (insert path (record { path = path; kind = dir }) entries) paths

abbrev pub values {ℓ} : {V : Type ℓ} → Dict Text V → List V
values [] = []
values ((_, v) ∷ d) = v ∷ values d

abbrev pub paths_of {ℓ} : {V : Type ℓ} → Dict Text V → List Text
paths_of [] = []
paths_of ((path, _) ∷ d) = path ∷ paths_of d

-- `inside`
abbrev pub inside : Text → Text → Bool
inside path root = path == root || starts_with path (root ++ b'/' ∷ [])

abbrev pub is_file : DeleteKind → Bool
is_file file = true
is_file dir = false

-- A file of the entries in the subtree.
abbrev pub is_leaf_of : Text → RecursiveDeleteAction → Bool
is_leaf_of path child = is_file child.kind && inside child.path path

-- The entry is no path to delete, or a chosen subtree covers it.
unfoldable pub is_covered : List RecursiveDeleteAction → RecursiveDeleteAction → Bool
is_covered result entry =
    entry.path == []
    || normalize_path entry.path != entry.path
    || any (λ (root : RecursiveDeleteAction). inside entry.path root.path) result

-- The entry holds a preserved path, or lies in one.
unfoldable pub touches_preserved : List Text → RecursiveDeleteAction → Bool
touches_preserved preserved entry =
    any (λ keep. inside keep entry.path || inside entry.path keep) preserved

-- The subtree may go: the last test of the loop.
unfoldable pub is_removable :
    (Text → Bool) → List RecursiveDeleteAction → List Text → RecursiveDeleteAction → Bool
is_removable can_collapse entries removable entry =
    let leaves = filter (is_leaf_of entry.path) entries in
    if is_file entry.kind
    then has removable entry.path
    else can_collapse entry.path
      && (has removable entry.path || ltb 0 (length leaves))
      && all (λ (child : RecursiveDeleteAction). has removable child.path) leaves

-- `left.localeCompare(right) < 0`, the order of the language of the device, is a parameter, and so
-- is `canCollapse`.
module _ (precedes : Text → Text → Bool) (can_collapse : Text → Bool) where
  unfoldable pub goes_before : RecursiveDeleteAction → RecursiveDeleteAction → Bool
  goes_before a b =
      let depth_a = length (split_slash a.path) in
      let depth_b = length (split_slash b.path) in
      if depth_a == depth_b then precedes a.path b.path else ltb depth_a depth_b

  unfoldable pub insert_entry :
      RecursiveDeleteAction → List RecursiveDeleteAction → List RecursiveDeleteAction
  unfolding goes_before
  insert_entry a [] = a ∷ []
  insert_entry a (b ∷ bs) =
      let rest = insert_entry a bs in if goes_before b a then b ∷ rest else a ∷ b ∷ bs

  unfoldable pub sort_entries : List RecursiveDeleteAction → List RecursiveDeleteAction
  unfolding insert_entry
  sort_entries [] = []
  sort_entries (a ∷ entries) = insert_entry a (sort_entries entries)

  -- The loop over the sorted entries.
  unfoldable pub plan_from :
      List RecursiveDeleteAction
      → List Text
      → List Text
      → List RecursiveDeleteAction
      → List RecursiveDeleteAction
      → List RecursiveDeleteAction
  unfolding is_removable is_covered touches_preserved
  plan_from entries removable preserved result [] = result
  plan_from entries removable preserved result (entry ∷ rest) =
      if is_covered result entry
        || touches_preserved preserved entry
        || not (is_removable can_collapse entries removable entry)
      then plan_from entries removable preserved result rest
      else plan_from entries removable preserved (result ++ entry ∷ []) rest

  -- `planRecursiveDeletes`
  unfoldable pub plan_recursive_deletes :
      List RecursiveDeleteAction → List Text → List Text → List RecursiveDeleteAction
  unfolding plan_from sort_entries entries_by_path add_directories
  plan_recursive_deletes resources removable preserved =
      let given = entries_by_path [] resources in
      let entries = add_directories given (get_ancestor_directories [] (paths_of given)) in
      plan_from (values entries) removable preserved [] (sort_entries (values entries))
