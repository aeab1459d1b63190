-- ===== src/Local/Actions.antt =====
-- src/sync/local/operation-store.ts: the physical actions that follow a commit. `now` is the clock,
-- and `tag` the time and the random part of an action's id.
pub mod Refresh
use obsidian_yandex_disk_syn.Common.{
  ℕ, zero, suc, ◌+◌, ◌-◌, ◌≤◌, ◌<◌, ◌≡◌, refl, sym, ap, ◌∙◌, subst, ◌≢◌, ◌↔◌, ◌⊎◌, inl, inr, Bool,
  true, false, not, ◌&&◌, ◌||◌, Option, none, some, List, [], ◌∷◌, ◌++◌, map, arith, ltb, leb,
  if◌then◌else◌, get_or, truthy, truthy_list, is_some, ◌==◌, ◌!=◌, nat_eq, bool_eq, option_eq,
  list_eq, Bool-cases, Option-cases, length, length-append, any, all, filter, find, last, All, Some,
  has, eq_of_test, test_self, Eq, max, min,
}
use obsidian_yandex_disk_syn.Common.Text.{
  Text, codes, strip_prefix, starts_with, strip_prefix-append, append-strip_prefix, trim_slashes,
  split_slash, join_slash,
}
use obsidian_yandex_disk_syn.Common.Dict.{
  Dict, lookup, insert, erase, NodupKeys, lookup-insert, lookup-insert_self, lookup-erase,
}
use obsidian_yandex_disk_syn.Types.{
  PendingPhysicalAction, PhysicalActionType, PhysicalActionOrigin, exact_delete, delete_local,
  physical_action_type_eq,
}
use obsidian_yandex_disk_syn.Local.Operations.{LocalOperationStore, PhysicalActionOptions}

-- `loadPhysicalActions`. The two fields that old data may lack are always there in the model.
unfoldable pub load_physical_actions :
    Option (List PendingPhysicalAction) → LocalOperationStore → LocalOperationStore
load_physical_actions actions s = record s { pending_physical_actions = get_or actions [] }

-- `findPhysicalAction`
unfoldable pub find_physical_action :
    PhysicalActionType → Text → LocalOperationStore → Option PendingPhysicalAction
find_physical_action type path s =
    find (λ a. a.type == type && a.path == path) s.pending_physical_actions

-- `getPendingLocalDeletePaths`
unfoldable pub get_pending_local_delete_paths : LocalOperationStore → List Text
get_pending_local_delete_paths s =
    map (λ a. a.path) (filter (λ a. a.type == delete_local) s.pending_physical_actions)

-- `options?.field ?? existing.field`
abbrev pub or_old {ℓ} : {A : Type ℓ} → Option A → Option A → Option A
or_old none old = old
or_old (some new) old = some new

-- An action that is enqueued again takes the options that are given.
unfoldable pub refresh_action :
    PhysicalActionOptions → PendingPhysicalAction → PendingPhysicalAction
refresh_action options a = record a {
  epoch = or_old options.epoch a.epoch;
  origin = get_or options.origin a.origin;
  canonical_revision = get_or options.canonical_revision a.canonical_revision;
  expected_fingerprint = or_old options.expected_fingerprint a.expected_fingerprint;
  expected_changed_revision = or_old options.expected_changed_revision a.expected_changed_revision;
  expected_target_fingerprint =
      or_old options.expected_target_fingerprint a.expected_target_fingerprint;
  baseline_sha256 = or_old options.baseline_sha256 a.baseline_sha256;
  parent_mutation_id = or_old options.parent_mutation_id a.parent_mutation_id;
}

unfoldable pub new_action :
    (device tag : Text)
    → PhysicalActionType
    → Text
    → ℕ
    → PhysicalActionOptions
    → ℕ
    → PendingPhysicalAction
new_action device tag type path default options now = record {
  id = device ++ codes ":physical:" ++ tag;
  type = type;
  epoch = options.epoch;
  origin = get_or options.origin exact_delete;
  path = path;
  target_path = options.target_path;
  parent_mutation_id = options.parent_mutation_id;
  canonical_revision = get_or options.canonical_revision default;
  expected_fingerprint = options.expected_fingerprint;
  expected_changed_revision = options.expected_changed_revision;
  expected_target_fingerprint = options.expected_target_fingerprint;
  baseline_sha256 = options.baseline_sha256;
  created_at = now;
}

abbrev pub same_action : PhysicalActionType → Text → Option Text → PendingPhysicalAction → Bool
same_action type path target a = a.type == type && a.path == path && a.target_path == target

-- The first action of the same kind, path and target, refreshed in place.
unfoldable pub refresh_first :
    (PendingPhysicalAction → Bool)
    → PhysicalActionOptions
    → List PendingPhysicalAction
    → Option (List PendingPhysicalAction × PendingPhysicalAction)
unfolding refresh_action
refresh_first same options [] = none
refresh_first same options (a ∷ rest) =
    if same a
    then some (refresh_action options a ∷ rest, refresh_action options a)
    else elim (refresh_first same options rest) [
      | none ↦ none
      | some (rest', found) ↦ some (a ∷ rest', found)
    ]

-- `enqueuePhysicalAction`
unfoldable pub enqueue_physical_action :
    PhysicalActionType
    → Text
    → (default_canonical_revision : ℕ) → PhysicalActionOptions
    → (tag : Text) → (now : ℕ) → LocalOperationStore
    → LocalOperationStore × PendingPhysicalAction
unfolding refresh_first new_action
enqueue_physical_action type path default options tag now s =
    elim (refresh_first (same_action type path options.target_path) options
      s.pending_physical_actions) [
        | some (actions, found) ↦ (record s { pending_physical_actions = actions }, found)
        | none ↦
            let a = new_action s.device_id tag type path default options now in
            (record s { pending_physical_actions = s.pending_physical_actions ++ a ∷ [] }, a)
      ]

-- `completePhysicalAction`
unfoldable pub complete_physical_action : Text → LocalOperationStore → LocalOperationStore
complete_physical_action id s = record s {
  pending_physical_actions = filter (λ a. a.id != id) s.pending_physical_actions;
}
