-- ===== src/Canonical/Merge/Touched.antt =====
-- What the loop over folder tombstones does to the entry of one path.
use obsidian_yandex_disk_syn.Common.{
  true, ◌<◌, Some, has, truthy, get_or, ◌≡◌, refl, sym, ap, ◌∙◌, subst, ◌⊎◌, inl, inr, false,
  Option, some, List, [], ◌∷◌, arith, ◌==◌, nat_eq, bool_eq, option_eq, list_eq, Bool-cases,
  Option-cases, eq_of_test,
}
use obsidian_yandex_disk_syn.Common.Text.{Text, trim_slashes}
use obsidian_yandex_disk_syn.Common.Dict.{Dict, lookup, insert, lookup-insert}
use obsidian_yandex_disk_syn.Types.{FileMetadata, FolderTombstone, folder_tombstone_eq}
use obsidian_yandex_disk_syn.Paths.Ancestry.{PathAncestryIndex, descendants, ancestry_index}
use obsidian_yandex_disk_syn.Paths.Ancestry.Answers.{at_or_below, ancestry_index_lem}
use obsidian_yandex_disk_syn.Canonical.Mutation.{
  should_preserve_concurrent_folder_child, is_causal_same_device_predecessor,
}
use obsidian_yandex_disk_syn.Canonical.Merge.Context.{
  CanonicalMergeInput, Progress, returned, >>=-eq-returned, returned-injective,
}
use obsidian_yandex_disk_syn.Canonical.Merge.Files.{touch}
use obsidian_yandex_disk_syn.Canonical.Merge.Logs.{
  keep_child, keep_children, store_tombstone, merge_tombstone, merge_tombstones, merge_folders,
}
use obsidian_yandex_disk_syn.Canonical.Merge.Rounds.{file_at}

-- A tombstone that the device has set since it loaded the index stands for the path or a folder
-- above it, and its base does not include the last change of the live child, which no earlier
-- mutation of the tombstone's device wrote.
abbrev pub IsSparedBy : CanonicalMergeInput → Text → FileMetadata → Text × FolderTombstone → Type 0
IsSparedBy input path c (folder, t) =
    ((some t == lookup folder input.loaded_base.folder_tombstones) ≡ false)
    × (at_or_below (trim_slashes folder) path ≡ true)
    × (truthy c.deleted ≡ false)
    × (t.base_revision < get_or c.changed_revision 0)
    × (is_causal_same_device_predecessor c (some t.last_modified_by) t.mutation_seq ≡ false)

-- The tombstone loop leaves an entry as it was, or marks it as changed by the new revision for one
-- of the tombstones.
abbrev pub TouchedOrSame :
    CanonicalMergeInput
    → Text
    → Dict Text FolderTombstone
    → (before after : Option FileMetadata) → Type 0
TouchedOrSame input path tombstones before after =
    (after ≡ before)
    ⊎ ((c : FileMetadata) × (before ≡ some c)
        × (after ≡ some (touch input c))
        × Some (IsSparedBy input path c) tombstones)

merge_tombstone_cases :
    (input : CanonicalMergeInput) (a : PathAncestryIndex) (p q : Progress) (key : Text)
    (tombstone : FolderTombstone)
    → merge_tombstone input a p (key, tombstone) ≡ returned q
    → (q ≡ p)
      ⊎ ((some tombstone == lookup key input.loaded_base.folder_tombstones) ≡ false)
        × (q ≡ store_tombstone input a p key tombstone)
unfolding merge_tombstone
merge_tombstone_cases input a p q key tombstone h = ground arith

module _ (input : CanonicalMergeInput) (path : Text) where
  -- The rounds over some children of one folder, seen at the path.
  abbrev Spared : FolderTombstone → List Text → (before after : Option FileMetadata) → Type 0
  Spared t keys before after =
      (after ≡ before)
      ⊎ ((c : FileMetadata) × (before ≡ some c)
          × (after ≡ some (touch input c))
          × (should_preserve_concurrent_folder_child c t.base_revision (some t.last_modified_by)
                t.mutation_seq
              ≡ true)
          × (has keys path ≡ true))

  Spared-twice :
      (t : FolderTombstone) (key : Text) (keys : List Text) (a b c : Option FileMetadata)
      → Spared t (key ∷ []) a b
      → Spared t keys b c
      → Spared t (key ∷ keys) a c
  unfolding touch
  Spared-twice t key keys a b c (inl e) (inl f) = inl (f ∙ e)
  Spared-twice t key keys a b c (inl e) (inr (m, f, g, p, h)) =
      inr (m, sym e ∙ f, g, p, ground arith)
  Spared-twice t key keys a b c (inr (m, e, f, p, h)) (inl g) = inr (m, e, g ∙ f, p, ground arith)
  Spared-twice t key keys a b c (inr (m, e, f, p, h)) (inr (n, g, i, q, k)) =
      inr (m, e, ground arith, p, ground arith)

  insert-Spared :
      (t : FolderTombstone) (c : FileMetadata) (files : Dict Text FileMetadata) (key : Text)
      → lookup key files ≡ some c
      → should_preserve_concurrent_folder_child c t.base_revision
          (some t.last_modified_by)
          t.mutation_seq
        ≡ true
      → Spared t (key ∷ []) (lookup path files) (lookup path (insert key (touch input c) files))
  insert-Spared t c files key found newer = elim (Bool-cases (key == path)) [
    | inl same ↦ inr (
      c,
      subst (λ k. lookup k files ≡ some c) (eq_of_test key path same) found,
      ground (arith, lookup-insert path key (touch input c) files),
      newer,
      ground arith,
    )
    | inr other ↦ inl (ground (arith, lookup-insert path key (touch input c) files))
  ]

  keep_child-Spared :
      (t : FolderTombstone) (files : Dict Text FileMetadata) (key : Text)
      → Spared t (key ∷ []) (lookup path files) (lookup path (keep_child input t files key))
  unfolding keep_child
  keep_child-Spared t files key = elim (Option-cases (lookup key files)) [
    | inl missing ↦ rw (missing, keep_child) (inl refl)
    | inr (c, found) ↦
        elim (Bool-cases (
          should_preserve_concurrent_folder_child c t.base_revision (some t.last_modified_by)
            t.mutation_seq)) [
              | inl newer ↦ rw (found, newer, keep_child) (insert-Spared t c files key found newer)
              | inr seen ↦ rw (found, seen, keep_child) (inl refl)
            ]
  ]

  keep_children-Spared :
      (t : FolderTombstone) (files : Dict Text FileMetadata) (keys : List Text)
      → Spared t keys (lookup path files) (lookup path (keep_children input t files keys))
  unfolding keep_children
  keep_children-Spared t files [] = inl refl
  keep_children-Spared t files (key ∷ keys) =
      Spared-twice t key keys _ _ _ (keep_child-Spared t files key)
        (keep_children-Spared t (keep_child input t files key) keys)

  touched_of_Spared :
      (paths : List Text) (key : Text) (t : FolderTombstone) (before after : Option FileMetadata)
      → (some t == lookup key input.loaded_base.folder_tombstones) ≡ false
      → Spared t (descendants (ancestry_index [] paths) (trim_slashes key)) before after
      → TouchedOrSame input path ((key, t) ∷ []) before after
  unfolding should_preserve_concurrent_folder_child
  touched_of_Spared paths key t before after new (inl e) = inl e
  touched_of_Spared paths key t before after new (inr (c, e, f, p, h)) =
      let below = ancestry_index_lem paths (trim_slashes key) path in
      inr (c, e, f, inl (new, ground (arith, below), ground arith, ground arith, ground arith))

  merge_tombstone-touched :
      (paths : List Text) (p q : Progress) (entry : Text × FolderTombstone)
      → merge_tombstone input (ancestry_index [] paths) p entry ≡ returned q
      → TouchedOrSame input path (entry ∷ []) (file_at path p) (file_at path q)
  unfolding store_tombstone
  merge_tombstone-touched paths p q (key, t) h =
      elim (merge_tombstone_cases input (ancestry_index [] paths) p q key t h) [
        | inl e ↦ inl (ap (file_at path) e)
        | inr (new, e) ↦
            rw e (touched_of_Spared paths key t _ _ new (keep_children-Spared t p.index.files _))
      ]

  touch_twice :
      (entry : Text × FolderTombstone) (rest : Dict Text FolderTombstone)
      (a b c : Option FileMetadata)
      → TouchedOrSame input path (entry ∷ []) a b
      → TouchedOrSame input path rest b c
      → TouchedOrSame input path (entry ∷ rest) a c
  unfolding touch
  touch_twice entry rest a b c (inl e) (inl f) = inl (f ∙ e)
  touch_twice entry rest a b c (inl e) (inr (m, f, g, s)) = inr (m, sym e ∙ f, g, inr s)
  touch_twice entry rest a b c (inr (m, e, f, inl s)) (inl g) = inr (m, e, g ∙ f, inl s)
  touch_twice entry rest a b c (inr (m, e, f, inl s)) (inr (n, g, h, s')) =
      inr (m, e, ground arith, inl s)
  touch_twice entry rest a b c (inr (m, e, f, inr s)) t = elim s [ ]

  merge_tombstones-touched :
      (paths : List Text) (p q : Progress) (entries : Dict Text FolderTombstone)
      → merge_tombstones input (ancestry_index [] paths) p entries ≡ returned q
      → TouchedOrSame input path entries (file_at path p) (file_at path q)
  unfolding merge_tombstones
  merge_tombstones-touched paths p q [] h = inl (ap (file_at path) (sym (returned-injective h)))
  merge_tombstones-touched paths p q (entry ∷ rest) h =
      let (next, e, f) =
        >>=-eq-returned (merge_tombstone input (ancestry_index [] paths) p entry) _ h in
      touch_twice entry rest _ _ _ (merge_tombstone-touched paths p next entry e)
        (merge_tombstones-touched paths next q rest f)

  pub merge_folders-touched :
      (p q : Progress)
      → merge_folders input p ≡ returned q
      → TouchedOrSame input path input.desired.folder_tombstones (file_at path p) (file_at path q)
  unfolding merge_folders
  merge_folders-touched p q h = merge_tombstones-touched _ p q input.desired.folder_tombstones h
