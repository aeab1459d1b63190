-- ===== src/Realtime/Causal.antt =====
-- src/sync/realtime/rules.ts: what the canonical index says about renames and uploads.
pub mod Outcomes
pub mod Identities
use obsidian_yandex_disk_syn.Common.{
  ℕ, zero, suc, ◌+◌, ◌-◌, ◌≤◌, ◌<◌, ◌≡◌, refl, sym, ap, ◌∙◌, subst, ◌≢◌, ◌↔◌, ◌⊎◌, inl, inr, Bool,
  true, false, not, ◌&&◌, ◌||◌, Option, none, some, List, [], ◌∷◌, ◌++◌, map, arith, ltb, leb,
  if◌then◌else◌, get_or, truthy, truthy_list, is_some, ◌==◌, ◌!=◌, nat_eq, bool_eq, option_eq,
  list_eq, Bool-cases, Option-cases, length, length-append, any, all, filter, find, last, All, Some,
  has, eq_of_test, test_self, Eq, max, min,
}
use obsidian_yandex_disk_syn.Common.Text.{
  Text, codes, strip_prefix, starts_with, strip_prefix-append, append-strip_prefix, trim_slashes,
  split_slash, join_slash, cut_last,
}
use obsidian_yandex_disk_syn.Common.Dict.{
  Dict, lookup, insert, erase, NodupKeys, lookup-insert, lookup-insert_self, lookup-erase,
}
use obsidian_yandex_disk_syn.Types.{FileMetadata, IndexMove, PendingMutation}
use obsidian_yandex_disk_syn.Realtime.Events.{RealtimeFileEvent, DurableFileRenameEvent}

pub data FileRenamePlan : Type 0 where
  put_target remote_move materialize_target : FileRenamePlan

pub data OutcomeStatus : Type 0 where
  completed superseded retry : OutcomeStatus

-- The reasons that `classifyPostFullRename` gives.
pub data OutcomeReason : Type 0 where
  epoch_replaced_by_full related_causal_work_pending target_applied_concurrent_source_preserved
        target_applied_by_full source_and_target_settled_by_full concurrent_source_preserved
        post_full_rename_ambiguous :
      OutcomeReason

pub record FileRenameOutcome : Type 0 where
  pub status : OutcomeStatus
  pub already_applied : Bool
  pub reason : OutcomeReason
  pub canonical_revision : ℕ
  pub epoch : Text
  pub remote_started : Bool

pub record PostFullRenameState : Type 0 where
  pub canonical_epoch : Text
  pub canonical_revision : ℕ
  pub canonical_source : Option FileMetadata
  pub canonical_target : Option FileMetadata
  pub local_target : Option FileMetadata
  pub target_exists : Bool
  pub has_pending_work : Bool

-- `metadata && !metadata.deleted`
abbrev pub is_live : Option FileMetadata → Bool
is_live none = false
is_live (some m) = not (truthy m.deleted)

-- `(canonicalSource.changedRevision ?? 0) <= baseRevision || …`
abbrev was_seen : FileMetadata → ℕ → Option Text → Bool
was_seen source base device_id =
    leb (get_or source.changed_revision 0) base
    || (source.last_modified_by == device_id && is_some source.mutation_seq)

-- `wasRenameSourceCausallyLive`
unfoldable pub was_rename_source_causally_live :
    Option FileMetadata → Option FileMetadata → Option ℕ → Option Text → Bool
was_rename_source_causally_live local_baseline none base_revision device_id = false
was_rename_source_causally_live local_baseline (some source) base_revision device_id =
    if not (is_live local_baseline)
    then false
    else if not (is_live (some source))
    then false
    else elim base_revision [ none ↦ false | some base ↦ was_seen source base device_id ]

-- `sourceIsNewer`
abbrev pub source_is_newer : Option FileMetadata → Option ℕ → Bool
source_is_newer none base_revision = false
source_is_newer (some source) none = false
source_is_newer (some source) (some base) =
    not (truthy source.deleted) && ltb base (get_or source.changed_revision 0)

-- `sourceIsSettled`
abbrev pub source_is_settled : Option FileMetadata → Bool
source_is_settled none = true
source_is_settled (some source) = truthy source.deleted

-- `targetIsConfirmed`
abbrev pub target_is_confirmed : PostFullRenameState → Bool
target_is_confirmed state = elim state.canonical_target [
  | none ↦ false
  | some canonical ↦ elim state.local_target [
    | none ↦ false
    | some here ↦
        state.target_exists
        && not (truthy canonical.deleted)
        && not (truthy here.deleted)
        && here.sha256 == canonical.sha256
  ]
]

-- `event.epoch !== null && event.epoch !== state.canonicalEpoch`
abbrev pub epoch_replaced : Option Text → Text → Bool
epoch_replaced none canonical = false
epoch_replaced (some epoch) canonical = epoch != canonical

abbrev outcome : PostFullRenameState → OutcomeStatus → Bool → OutcomeReason → FileRenameOutcome
outcome state status applied reason = record {
  status = status;
  already_applied = applied;
  reason = reason;
  canonical_revision = state.canonical_revision;
  epoch = state.canonical_epoch;
  remote_started = false;
}

-- The target is not there, neither on the device nor in the index.
abbrev pub target_is_gone : PostFullRenameState → Bool
target_is_gone state = not state.target_exists && not (is_live state.canonical_target)

-- `classifyPostFullRename`
unfoldable pub classify_post_full_rename :
    DurableFileRenameEvent → PostFullRenameState → FileRenameOutcome
classify_post_full_rename event state =
    let newer = source_is_newer state.canonical_source event.base_revision in
    let settled = source_is_settled state.canonical_source in
    if epoch_replaced event.epoch state.canonical_epoch
    then outcome state superseded false epoch_replaced_by_full
    else if state.has_pending_work
    then outcome state retry false related_causal_work_pending
    else if target_is_confirmed state && (settled || newer)
    then outcome state completed true
        (if newer then target_applied_concurrent_source_preserved else target_applied_by_full)
    else if target_is_gone state && settled
    then outcome state superseded false source_and_target_settled_by_full
    else if target_is_gone state && newer
    then outcome state superseded false concurrent_source_preserved
    else outcome state retry false post_full_rename_ambiguous

-- `selectFileRenamePlan`
unfoldable pub select_file_rename_plan : Bool → Option FileMetadata → Text → FileRenamePlan
select_file_rename_plan causally_live none target_sha256 =
    if causally_live then materialize_target else put_target
select_file_rename_plan causally_live (some source) target_sha256 =
    if not causally_live
    then put_target
    else if source.sha256 != target_sha256
    then materialize_target
    else remote_move

-- `isMutationIdentityApplied`: the identity is the device and, behind the last colon, a counter.
unfoldable pub is_mutation_identity_applied : Option Text → Option ℕ → Dict Text ℕ → Bool
is_mutation_identity_applied none seq applied = false
is_mutation_identity_applied (some id) none applied = false
is_mutation_identity_applied (some id) (some seq) applied = elim (cut_last b':' id) [
  | none ↦ false
  | some [] ↦ false
  | some (c ∷ device) ↦ leb seq (get_or (lookup (c ∷ device) applied) 0)
]

-- `wasMutationApplied`
unfoldable pub was_mutation_applied : PendingMutation → Dict Text ℕ → Bool
unfolding is_mutation_identity_applied
was_mutation_applied mutation applied =
    is_mutation_identity_applied (some mutation.id) (some mutation.seq) applied

-- `wasPendingPutAccepted`
unfoldable pub was_pending_put_accepted :
    Option PendingMutation → Dict Text ℕ → Option FileMetadata → Bool
unfolding was_mutation_applied
was_pending_put_accepted none applied source = false
was_pending_put_accepted (some mutation) applied source =
    if is_live source then was_mutation_applied mutation applied else false

-- `isUploadEventApplied`
unfoldable pub is_upload_event_applied : RealtimeFileEvent → Dict Text ℕ → Bool
unfolding is_mutation_identity_applied
is_upload_event_applied event applied =
    is_mutation_identity_applied event.mutation_id event.mutation_seq applied

-- `matchesUploadReceiptContent`
unfoldable pub matches_upload_receipt_content : Option FileMetadata → Option Text → Bool
matches_upload_receipt_content none sha256 = false
matches_upload_receipt_content (some source) sha256 =
    not (truthy source.deleted) && some source.sha256 == sha256

-- `isMissingUploadSuperseded`
unfoldable pub is_missing_upload_superseded :
    RealtimeFileEvent → Option FileMetadata → Dict Text IndexMove → Bool
is_missing_upload_superseded event none moves =
    truthy event.superseded || any (λ (m : Text × IndexMove). m.1.from_path == event.path) moves
is_missing_upload_superseded event (some source) moves =
    truthy event.superseded
    || truthy source.deleted
    || any (λ (m : Text × IndexMove). m.1.from_path == event.path) moves
