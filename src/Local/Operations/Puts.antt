-- ===== src/Local/Operations/Puts.antt =====
-- src/sync/local/operation-store.ts: the put of a path or an id that is still pending.
use obsidian_yandex_disk_syn.Common.{
  ℕ, Bool, ◌&&◌, Option, none, some, List, [], ◌∷◌, if◌then◌else◌, ◌==◌, nat_eq, bool_eq, option_eq,
  list_eq, find,
}
use obsidian_yandex_disk_syn.Common.Text.{Text}
use mathlib.Core.List.{reverse}
use obsidian_yandex_disk_syn.Types.{PendingMutation, noop, delete_file}
use obsidian_yandex_disk_syn.Local.Baseline.{is_put, find_latest_put_baseline_sha}
use obsidian_yandex_disk_syn.Local.Operations.{LocalOperationStore}

abbrev is_put_at : Text → PendingMutation → Bool
is_put_at path m = is_put m.type && m.path == path

-- `findLatestPutBaseRevision`: no put is `none`, and a put with no revision `some none`.
unfoldable pub find_latest_put_base_revision : Text → LocalOperationStore → Option (Option ℕ)
find_latest_put_base_revision path s = elim (find (is_put_at path) (reverse s.pending_mutations)) [
  | none ↦ none
  | some m ↦ some m.base_revision
]

pub data SearchOrder : Type 0 where
  first last : SearchOrder

-- `findMatchingPut`
unfoldable pub find_matching_put :
    Text → Option Text → SearchOrder → LocalOperationStore → Option PendingMutation
find_matching_put path sha first s =
    find (λ m. is_put_at path m && m.sha256 == sha) s.pending_mutations
find_matching_put path sha last s =
    find (λ m. is_put_at path m && m.sha256 == sha) (reverse s.pending_mutations)

-- `findLatestPutBaselineSha`
unfoldable pub find_latest_baseline : Text → LocalOperationStore → Option Text
find_latest_baseline path s = find_latest_put_baseline_sha s.pending_mutations path

-- `mutation.baselineSha256 = baselineSha256`, where one is given.
abbrev given {ℓ} : {A : Type ℓ} → Option A → Option A → Option A
given none old = old
given (some new) old = some new

unfoldable pub retarget_put : Text → Text → Option Text → PendingMutation → PendingMutation
retarget_put path sha baseline m = record m {
  path = path;
  sha256 = some sha;
  baseline_sha256 = given baseline m.baseline_sha256;
}

-- The backward loop of `retargetLatestPut`: the last put of the path is changed in place.
unfoldable pub retarget_last :
    (old new sha : Text)
    → Option Text
    → List PendingMutation
    → Option (List PendingMutation × PendingMutation)
unfolding retarget_put
retarget_last old new sha baseline [] = none
retarget_last old new sha baseline (m ∷ ms) = elim (retarget_last old new sha baseline ms) [
  | some (ms', found) ↦ some (m ∷ ms', found)
  | none ↦
      if is_put_at old m
      then some (retarget_put new sha baseline m ∷ ms, retarget_put new sha baseline m)
      else none
]

-- `retargetLatestPut`
unfoldable pub retarget_latest_put :
    (old new sha : Text)
    → Option Text
    → LocalOperationStore
    → LocalOperationStore × Option PendingMutation
unfolding retarget_last
retarget_latest_put old new sha baseline s =
    elim (retarget_last old new sha baseline s.pending_mutations) [
      | none ↦ (s, none)
      | some (ms, found) ↦ (record s { pending_mutations = ms }, some found)
    ]

-- The first put with this id, changed in place.
unfoldable pub replace_put :
    Text
    → (PendingMutation → PendingMutation)
    → List PendingMutation
    → Option (List PendingMutation × PendingMutation)
replace_put id change [] = none
replace_put id change (m ∷ ms) =
    if m.id == id && is_put m.type
    then some (change m ∷ ms, change m)
    else elim (replace_put id change ms) [ none ↦ none | some (ms', found) ↦ some (m ∷ ms', found) ]

abbrev pub to_delete : PendingMutation → PendingMutation
to_delete m = record m {
  type = delete_file;
  target_path = none;
  resource_kind = none;
  sha256 = none;
}

abbrev pub to_noop : PendingMutation → PendingMutation
to_noop m = record m {
  type = noop;
  target_path = none;
  resource_kind = none;
  sha256 = none;
  baseline_sha256 = none;
}

-- `replacePutWithDelete` and `replacePutWithNoop`, by what they make of the put.
unfoldable pub replace_put_with :
    (PendingMutation → PendingMutation)
    → Text
    → LocalOperationStore
    → LocalOperationStore × Option PendingMutation
unfolding replace_put
replace_put_with change id s = elim (replace_put id change s.pending_mutations) [
  | none ↦ (s, none)
  | some (ms, found) ↦ (record s { pending_mutations = ms }, some found)
]

unfoldable pub replace_put_with_delete :
    Text → LocalOperationStore → LocalOperationStore × Option PendingMutation
unfolding replace_put_with
replace_put_with_delete id s = replace_put_with to_delete id s

unfoldable pub replace_put_with_noop :
    Text → LocalOperationStore → LocalOperationStore × Option PendingMutation
unfolding replace_put_with
replace_put_with_noop id s = replace_put_with to_noop id s
