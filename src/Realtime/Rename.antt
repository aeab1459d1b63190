-- ===== src/Realtime/Rename.antt =====
-- src/sync/realtime/rules.ts: paths through folder renames, chains of renames, and the folder
-- rename that a child rename belongs to.
pub mod Sorting
pub mod Chains
use obsidian_yandex_disk_syn.Common.{
  ℕ, zero, suc, ◌+◌, ◌-◌, ◌≤◌, ◌<◌, ◌≡◌, refl, sym, ap, ◌∙◌, subst, ◌≢◌, ◌↔◌, ◌⊎◌, inl, inr, Bool,
  true, false, not, ◌&&◌, ◌||◌, Option, none, some, List, [], ◌∷◌, ◌++◌, map, arith, ltb, leb,
  if◌then◌else◌, get_or, truthy, truthy_list, is_some, ◌==◌, ◌!=◌, nat_eq, bool_eq, option_eq,
  list_eq, Bool-cases, Option-cases, length, length-append, any, all, filter, find, last, All, Some,
  has, eq_of_test, test_self, Eq, max, min,
}
use obsidian_yandex_disk_syn.Common.Text.{
  Text, codes, strip_prefix, starts_with, strip_prefix-append, append-strip_prefix, trim_slashes,
  split_slash, join_slash,
}
use obsidian_yandex_disk_syn.Common.Dict.{
  Dict, lookup, insert, erase, NodupKeys, lookup-insert, lookup-insert_self, lookup-erase,
}
use obsidian_yandex_disk_syn.Realtime.Events.{
  DurableFileRenameEvent, DurableFolderRenameEvent, RenameEvent,
}

-- `mapPathThroughFolderRename`
unfoldable pub map_path_through_folder_rename : Text → Text → Text → Option Text
map_path_through_folder_rename path from_folder to_folder =
    elim (strip_prefix (trim_slashes from_folder ++ b'/' ∷ []) path) [
      | none ↦ none
      | some suffix ↦ some (trim_slashes to_folder ++ b'/' ∷ suffix)
    ]

pub data ChildRename : Type 0 where
  absorbed_child unrelated_child : ChildRename
  successor_child : DurableFileRenameEvent → ChildRename

-- `reduceFolderChildRename`
unfoldable pub reduce_folder_child_rename :
    DurableFolderRenameEvent → DurableFileRenameEvent → ChildRename
unfolding map_path_through_folder_rename
reduce_folder_child_rename parent child =
    elim (map_path_through_folder_rename child.path parent.path parent.target_path) [
      | none ↦ unrelated_child
      | some mechanical ↦
          if mechanical == child.target_path
          then absorbed_child
          else successor_child
              (record child { path = mechanical; predecessor_folder_event_id = some parent.id })
    ]

pub data ChainDisposition : Type 0 where
  queued rebased running : ChainDisposition

pub record RenameChain {ℓ} (T : Type ℓ) : Type ℓ where
  pub events : List T
  pub disposition : ChainDisposition
  pub predecessor_id : Option Text

module _ {ℓ} {T : Type ℓ} ⦃r : RenameEvent T⦄ where
  abbrev pub leads_to : Text → T → Bool
  leads_to path event = r.target event == path

  -- `existing` with the target of the first rename that leads to the path replaced.
  unfoldable pub rebase_first : List T → Text → Text → List T
  rebase_first [] path target = []
  rebase_first (event ∷ events) path target =
      let rest = rebase_first events path target in
      if leads_to path event then r.with_target event target ∷ events else event ∷ rest

  -- `reduceRenameChain`, and with it `reduceQueuedFileRename` and `reduceQueuedFolderRename`.
  unfoldable pub reduce_rename_chain : List T → T → List Text → RenameChain T
  unfolding rebase_first
  reduce_rename_chain existing incoming running_ids =
      elim (find (leads_to (r.source incoming)) existing) [
        | none ↦ record {
          events = existing ++ incoming ∷ [];
          disposition = queued;
          predecessor_id = none;
        }
        | some predecessor ↦
            if has running_ids (r.rename_id predecessor)
            then record {
              events = existing ++ incoming ∷ [];
              disposition = running;
              predecessor_id = some (r.rename_id predecessor);
            }
            else record {
              events = rebase_first existing (r.source incoming) (r.target incoming);
              disposition = rebased;
              predecessor_id = some (r.rename_id predecessor);
            }
      ]

-- A folder rename that moves the path, with its depth and its place in the queue.
pub record FolderParent : Type 0 where
  pub parent : DurableFolderRenameEvent
  pub order : ℕ
  pub depth : ℕ

-- The comparison of the sort is not positive the other way round: `a` comes before `b`.
unfoldable pub comes_before : FolderParent → FolderParent → Bool
comes_before a b =
    if a.depth == b.depth
    then (if a.parent.created_at == b.parent.created_at
        then ltb b.order a.order
        else ltb b.parent.created_at a.parent.created_at)
    else ltb b.depth a.depth

unfoldable pub folder_depth : Text → ℕ
folder_depth path = length (split_slash (trim_slashes path))

abbrev pub moves_path : Text → DurableFolderRenameEvent → Bool
moves_path child parent = starts_with child (trim_slashes parent.path ++ b'/' ∷ [])

-- `parents.map(…).filter(…)`, from a place in the queue on.
unfoldable pub applicable_from : ℕ → List DurableFolderRenameEvent → Text → List FolderParent
unfolding folder_depth
applicable_from order [] child = []
applicable_from order (parent ∷ parents) child =
    let rest = applicable_from (order + 1) parents child in
    if moves_path child parent
    then record { parent = parent; order = order; depth = folder_depth parent.path } ∷ rest
    else rest

-- `sort`, by insertion.
unfoldable pub insert_parent : FolderParent → List FolderParent → List FolderParent
unfolding comes_before
insert_parent p [] = p ∷ []
insert_parent p (q ∷ qs) =
    let rest = insert_parent p qs in if comes_before q p then q ∷ rest else p ∷ q ∷ qs

unfoldable pub sort_parents : List FolderParent → List FolderParent
unfolding insert_parent
sort_parents [] = []
sort_parents (p ∷ ps) = insert_parent p (sort_parents ps)

pub record FolderRenameParentSelection : Type 0 where
  pub parent : Option DurableFolderRenameEvent
  pub ambiguous : Bool

unfoldable pub select_from : List FolderParent → FolderRenameParentSelection
select_from [] = record { parent = none; ambiguous = false }
select_from (selected ∷ []) = record { parent = some selected.parent; ambiguous = false }
select_from (selected ∷ competing ∷ _) = record {
  parent = some selected.parent;
  ambiguous =
      competing.depth == selected.depth
      && selected.parent.predecessor_folder_event_id != some competing.parent.id
      && competing.parent.target_path != selected.parent.path;
}

-- `selectFolderRenameParent`
unfoldable pub select_folder_rename_parent :
    List DurableFolderRenameEvent → Text → FolderRenameParentSelection
unfolding applicable_from sort_parents select_from
select_folder_rename_parent parents child =
    select_from (sort_parents (applicable_from 0 parents child))
