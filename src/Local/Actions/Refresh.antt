-- ===== src/Local/Actions/Refresh.antt =====
-- A physical action that is enqueued again is the same action.
use obsidian_yandex_disk_syn.Common.{
  ℕ, ◌≡◌, refl, inl, inr, true, Option, none, some, List, [], ◌∷◌, ◌++◌, arith, get_or, nat_eq,
  bool_eq, option_eq, list_eq, Bool-cases, Option-cases,
}
use obsidian_yandex_disk_syn.Common.Text.{Text}
use obsidian_yandex_disk_syn.Types.{
  PendingPhysicalAction, PhysicalActionType, exact_delete, physical_action_type_eq,
}
use obsidian_yandex_disk_syn.Local.Operations.{LocalOperationStore, PhysicalActionOptions}
use obsidian_yandex_disk_syn.Local.Actions.{
  or_old, refresh_action, new_action, same_action, refresh_first, enqueue_physical_action,
}

or_old_twice {ℓ} : {A : Type ℓ} (a b : Option A) → or_old a (or_old a b) ≡ or_old a b
or_old_twice none b = refl
or_old_twice (some x) b = refl

get_or_twice {ℓ} : {A : Type ℓ} (a : Option A) (b : A) → get_or a (get_or a b) ≡ get_or a b
get_or_twice none b = refl
get_or_twice (some x) b = refl

or_old_self {ℓ} : {A : Type ℓ} (a : Option A) → or_old a a ≡ a
or_old_self none = refl
or_old_self (some x) = refl

refresh_twice :
    (o : PhysicalActionOptions) (a : PendingPhysicalAction)
    → refresh_action o (refresh_action o a) ≡ refresh_action o a
unfolding refresh_action
refresh_twice o a i = record (refresh_action o a) {
  epoch = or_old_twice o.epoch a.epoch i;
  origin = get_or_twice o.origin a.origin i;
  canonical_revision = get_or_twice o.canonical_revision a.canonical_revision i;
  expected_fingerprint = or_old_twice o.expected_fingerprint a.expected_fingerprint i;
  expected_changed_revision =
      or_old_twice o.expected_changed_revision a.expected_changed_revision i;
  expected_target_fingerprint =
      or_old_twice o.expected_target_fingerprint a.expected_target_fingerprint i;
  baseline_sha256 = or_old_twice o.baseline_sha256 a.baseline_sha256 i;
  parent_mutation_id = or_old_twice o.parent_mutation_id a.parent_mutation_id i;
}

refresh_action-new_action :
    (device tag : Text) (type : PhysicalActionType) (path : Text) (default : ℕ)
    (o : PhysicalActionOptions) (now : ℕ)
    → refresh_action o (new_action device tag type path default o now)
      ≡ new_action device tag type path default o now
unfolding refresh_action new_action
refresh_action-new_action device tag type path default o now i =
    record (new_action device tag type path default o now) {
      epoch = or_old_self o.epoch i;
      origin = get_or_twice o.origin exact_delete i;
      canonical_revision = get_or_twice o.canonical_revision default i;
      expected_fingerprint = or_old_self o.expected_fingerprint i;
      expected_changed_revision = or_old_self o.expected_changed_revision i;
      expected_target_fingerprint = or_old_self o.expected_target_fingerprint i;
      baseline_sha256 = or_old_self o.baseline_sha256 i;
      parent_mutation_id = or_old_self o.parent_mutation_id i;
    }

new_action-same :
    (device tag : Text) (type : PhysicalActionType) (path : Text) (default : ℕ)
    (o : PhysicalActionOptions) (now : ℕ)
    → same_action type path o.target_path (new_action device tag type path default o now) ≡ true
unfolding new_action
new_action-same device tag type path default o now = ground arith

module _ (type : PhysicalActionType) (path : Text) (o : PhysicalActionOptions) where
  refresh_action-same :
      (a : PendingPhysicalAction)
      → same_action type path o.target_path a ≡ true
      → same_action type path o.target_path (refresh_action o a) ≡ true
  unfolding refresh_action
  refresh_action-same a h = h

  refresh_first_twice :
      (xs ys : List PendingPhysicalAction) (a : PendingPhysicalAction)
      → refresh_first (same_action type path o.target_path) o xs ≡ some (ys, a)
      → refresh_first (same_action type path o.target_path) o ys ≡ some (ys, a)
  unfolding refresh_first
  refresh_first_twice [] ys a h = absurd (cc)
  refresh_first_twice (x ∷ xs) ys a h = elim (Bool-cases (same_action type path o.target_path x)) [
    | inl this ↦
        let e : (ys ≡ refresh_action o x ∷ xs) × (a ≡ refresh_action o x) = ground arith in
        let again : same_action type path o.target_path (refresh_action o x) ≡ true =
          refresh_action-same x this in
        rw (e.0, e.1) (rw again (rw (refresh_twice o x) refl))
    | inr other ↦ elim (Option-cases (refresh_first (same_action type path o.target_path) o xs)) [
      | inl off ↦ absurd (ground arith)
      | inr ((xs', found), on) ↦
          let e : (ys ≡ x ∷ xs') × (a ≡ found) = ground arith in
          rw (e.0, e.1) (rw other (rw (refresh_first_twice xs xs' found on) refl))
    ]
  ]

  refresh_first-new :
      (xs : List PendingPhysicalAction) (a : PendingPhysicalAction)
      → refresh_first (same_action type path o.target_path) o xs ≡ none
      → same_action type path o.target_path a ≡ true
      → refresh_action o a ≡ a
      → refresh_first (same_action type path o.target_path) o (xs ++ a ∷ [])
        ≡ some (xs ++ a ∷ [], a)
  unfolding refresh_first
  refresh_first-new [] a h s r = rw s (rw r refl)
  refresh_first-new (x ∷ xs) a h s r = elim (Bool-cases (same_action type path o.target_path x)) [
    | inl this ↦ absurd (ground arith)
    | inr other ↦ elim (Option-cases (refresh_first (same_action type path o.target_path) o xs)) [
      | inl off ↦ rw other (rw (refresh_first-new xs a off s r) refl)
      | inr ((xs', found), on) ↦ absurd (ground arith)
    ]
  ]

enqueue_physical_action-new :
    (type : PhysicalActionType) (path : Text) (default : ℕ) (o : PhysicalActionOptions) (tag : Text)
    (now : ℕ) (s : LocalOperationStore)
    → refresh_first (same_action type path o.target_path) o s.pending_physical_actions ≡ none
    → let a = new_action s.device_id tag type path default o now in
      enqueue_physical_action type path default o tag now s
      ≡ (record s { pending_physical_actions = s.pending_physical_actions ++ a ∷ [] }, a)
unfolding enqueue_physical_action
enqueue_physical_action-new type path default o tag now s off =
    rw (enqueue_physical_action, off) refl

enqueue_physical_action-old :
    (type : PhysicalActionType) (path : Text) (default : ℕ) (o : PhysicalActionOptions) (tag : Text)
    (now : ℕ) (s : LocalOperationStore) (actions : List PendingPhysicalAction)
    (a : PendingPhysicalAction)
    → refresh_first (same_action type path o.target_path) o s.pending_physical_actions
      ≡ some (actions, a)
    → enqueue_physical_action type path default o tag now s
      ≡ (record s { pending_physical_actions = actions }, a)
unfolding enqueue_physical_action
enqueue_physical_action-old type path default o tag now s actions a on =
    rw (enqueue_physical_action, on) refl

-- Enqueueing a physical action again with the same options changes nothing: at any later time, with
-- any other tag and default revision, the queue stays as the first call left it, and the result is
-- the same action.
pub enqueue_physical_action_twice :
    (type : PhysicalActionType) (path : Text) (default default' : ℕ) (o : PhysicalActionOptions)
    (tag tag' : Text) (now now' : ℕ) (s : LocalOperationStore)
    → enqueue_physical_action type path default' o tag' now'
        (enqueue_physical_action type path default o tag now s).0
      ≡ enqueue_physical_action type path default o tag now s
enqueue_physical_action_twice type path default default' o tag tag' now now' s =
    elim (Option-cases
      (refresh_first (same_action type path o.target_path) o s.pending_physical_actions)) [
        | inr ((actions, found), on) ↦
            let first =
              enqueue_physical_action-old type path default o tag now s actions found on in
            rw first (
              enqueue_physical_action-old type path default' o tag' now' _ _ _
                (refresh_first_twice type path o s.pending_physical_actions actions found on))
        | inl off ↦
            let first = enqueue_physical_action-new type path default o tag now s off in
            rw first (
              enqueue_physical_action-old type path default' o tag' now' _ _ _ (
                refresh_first-new type path o s.pending_physical_actions _ off
                  (new_action-same s.device_id tag type path default o now)
                  (refresh_action-new_action s.device_id tag type path default o now)))
      ]
