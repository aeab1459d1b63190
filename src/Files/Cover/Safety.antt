-- ===== src/Files/Cover/Safety.antt =====
-- The subtrees that a plan deletes: what they never hold, and that none lies in an earlier one.
use obsidian_yandex_disk_syn.Common.{
  ◌≡◌, inl, inr, Bool, true, false, not, ◌||◌, List, [], ◌∷◌, ◌++◌, arith, if◌then◌else◌, nat_eq,
  bool_eq, option_eq, list_eq, Bool-cases, any, all, filter, All, has,
}
use obsidian_yandex_disk_syn.Common.Text.{Text}
use obsidian_yandex_disk_syn.Types.{RecursiveDeleteAction}
use obsidian_yandex_disk_syn.Files.Cover.{
  entries_by_path, add_directories, values, paths_of, inside, is_file, is_leaf_of, sort_entries,
  is_removable, is_covered, touches_preserved, plan_from, plan_recursive_deletes,
}
use obsidian_yandex_disk_syn.Paths.Normal.{get_ancestor_directories}

-- The subtree holds no preserved path and lies in none; a file is removable, and all files in a
-- directory are.
pub record IsSafe (entries : List RecursiveDeleteAction) (removable preserved : List Text)
    (root : RecursiveDeleteAction) : Type 0 where
  pub apart : any (λ keep. inside keep root.path || inside root.path keep) preserved ≡ false
  pub removes :
      (if is_file root.kind
        then has removable root.path
        else all
            (λ (child : RecursiveDeleteAction). has removable child.path)
            (filter (is_leaf_of root.path) entries))
      ≡ true

-- No subtree lies in an earlier one.
abbrev pub Disjoint : List RecursiveDeleteAction → Type 0
Disjoint [] = Unit
Disjoint (root ∷ roots) =
    All (λ (later : RecursiveDeleteAction). inside later.path root.path ≡ false) roots
    × Disjoint roots

append-All :
    (P : RecursiveDeleteAction → Type 0) (roots : List RecursiveDeleteAction)
    (root : RecursiveDeleteAction)
    → All P roots
    → P root
    → All P (roots ++ root ∷ [])
append-All P [] root h k = (k, tt)
append-All P (x ∷ roots) root (h, hs) k = (h, append-All P roots root hs k)

append-Disjoint :
    (roots : List RecursiveDeleteAction) (root : RecursiveDeleteAction)
    → Disjoint roots
    → any (λ (x : RecursiveDeleteAction). inside root.path x.path) roots ≡ false
    → Disjoint (roots ++ root ∷ [])
append-Disjoint [] root h k = (tt, tt)
append-Disjoint (x ∷ roots) root (h, hs) k = (
  append-All (λ (later : RecursiveDeleteAction). inside later.path x.path ≡ false) roots root h
      (ground arith),
  append-Disjoint roots root hs (ground arith),
)

module _ (precedes : Text → Text → Bool) (can_collapse : Text → Bool)
    (entries : List RecursiveDeleteAction) (removable preserved : List Text) where
  taken-IsSafe :
      (entry : RecursiveDeleteAction)
      → touches_preserved preserved entry ≡ false
      → is_removable can_collapse entries removable entry ≡ true
      → IsSafe entries removable preserved entry
  unfolding touches_preserved is_removable
  taken-IsSafe entry p r = record { apart = p; removes = ground arith }

  uncovered :
      (result : List RecursiveDeleteAction) (entry : RecursiveDeleteAction)
      → is_covered result entry ≡ false
      → any (λ (x : RecursiveDeleteAction). inside entry.path x.path) result ≡ false
  unfolding is_covered
  uncovered result entry h = ground arith

  plan_from-IsSafe :
      (result rest : List RecursiveDeleteAction)
      → All (IsSafe entries removable preserved) result
      → Disjoint result
      → All
          (IsSafe entries removable preserved)
          (plan_from precedes can_collapse entries removable preserved result rest)
        × Disjoint (plan_from precedes can_collapse entries removable preserved result rest)
  unfolding plan_from
  plan_from-IsSafe result [] h k = (h, k)
  plan_from-IsSafe result (entry ∷ rest) h k =
      elim (Bool-cases (
        is_covered result entry
        || touches_preserved preserved entry
        || not (is_removable can_collapse entries removable entry))) [
          | inl e ↦ rw e (plan_from-IsSafe result rest h k)
          | inr e ↦ rw e (
              plan_from-IsSafe (result ++ entry ∷ []) rest
                (append-All (IsSafe entries removable preserved) result entry h
                  (taken-IsSafe entry (ground arith) (ground arith)))
                (append-Disjoint result entry k (uncovered result entry (ground arith))))
        ]

-- Every subtree that a plan deletes holds no preserved path and lies in none, a file in the plan is
-- removable, all files of the entries in a directory of the plan are removable, and no subtree of the
-- plan lies in an earlier one. The entries are the given resources with their ancestor directories.
pub plan_recursive_deletes-IsSafe :
    (precedes : Text → Text → Bool) (can_collapse : Text → Bool)
    (resources : List RecursiveDeleteAction) (removable preserved : List Text)
    → let given = entries_by_path [] resources in
      let entries = values (add_directories given (get_ancestor_directories [] (paths_of given))) in
      let plan = plan_recursive_deletes precedes can_collapse resources removable preserved in
      All (IsSafe entries removable preserved) plan × Disjoint plan
unfolding plan_recursive_deletes
plan_recursive_deletes-IsSafe precedes can_collapse resources removable preserved =
    let given = entries_by_path [] resources in
    let entries = values (add_directories given (get_ancestor_directories [] (paths_of given))) in
    plan_from-IsSafe precedes can_collapse entries removable preserved []
      (sort_entries precedes can_collapse entries) tt tt
