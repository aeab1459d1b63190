-- ===== src/Local/Operations.antt =====
-- src/sync/local/operation-store.ts: the durable queue of mutations and of physical actions of one
-- device. `now` is the clock and `tag` the random part of an action's id.
pub mod Puts
pub mod Confirm
pub mod Queue
pub mod Keys
pub mod Allocation
pub mod Order
pub mod Staging
use obsidian_yandex_disk_syn.Common.{
  ℕ, zero, suc, ◌+◌, ◌-◌, ◌≤◌, ◌<◌, ◌≡◌, refl, sym, ap, ◌∙◌, subst, ◌≢◌, ◌↔◌, ◌⊎◌, inl, inr, Bool,
  true, false, not, ◌&&◌, ◌||◌, Option, none, some, List, [], ◌∷◌, ◌++◌, map, arith, ltb, leb,
  if◌then◌else◌, get_or, truthy, truthy_list, is_some, ◌==◌, ◌!=◌, nat_eq, bool_eq, option_eq,
  list_eq, Bool-cases, Option-cases, length, length-append, any, all, filter, find, last, All, Some,
  has, eq_of_test, test_self, Eq, max, min,
}
use obsidian_yandex_disk_syn.Common.Text.{
  Text, codes, strip_prefix, starts_with, strip_prefix-append, append-strip_prefix, trim_slashes,
  split_slash, join_slash,
}
use obsidian_yandex_disk_syn.Common.Dict.{
  Dict, lookup, insert, erase, NodupKeys, lookup-insert, lookup-insert_self, lookup-erase,
}
use mathlib.Core.List.{reverse}
use obsidian_yandex_disk_syn.Common.Decimal.{decimal}
use obsidian_yandex_disk_syn.Types.{
  ResourceKind, PendingMutation, PendingMutationType, put, noop, delete_file, delete_folder, move,
  PendingPhysicalAction, PhysicalActionType, PhysicalActionOrigin, exact_delete, delete_local,
}
use obsidian_yandex_disk_syn.Canonical.Mutation.{advance_mutation_sequence}
use obsidian_yandex_disk_syn.Local.Baseline.{is_put, find_latest_put_baseline_sha}

pub record MutationOptions : Type 0 where
  pub target_path : Option Text
  pub resource_kind : Option ResourceKind
  pub sha256 : Option Text
  pub baseline_sha256 : Option Text

pub record PhysicalActionOptions : Type 0 where
  pub target_path : Option Text
  pub parent_mutation_id : Option Text
  pub canonical_revision : Option ℕ
  pub expected_fingerprint : Option Text
  pub expected_changed_revision : Option ℕ
  pub expected_target_fingerprint : Option Text
  pub baseline_sha256 : Option Text
  pub epoch : Option Text
  pub origin : Option PhysicalActionOrigin

pub record LocalOperationStore : Type 0 where
  pub device_id : Text
  pub pending_mutations : List PendingMutation
  pub pending_physical_actions : List PendingPhysicalAction
  pub next_mutation_seq : ℕ

-- The constructor.
unfoldable pub new_store : Text → LocalOperationStore
new_store device = record {
  device_id = device;
  pending_mutations = [];
  pending_physical_actions = [];
  next_mutation_seq = 1;
}

-- `updateDeviceId`
unfoldable pub update_device_id : Text → LocalOperationStore → LocalOperationStore
update_device_id device s = record s { device_id = device }

-- `${this.deviceId}:${seq}`
unfoldable pub own_mutation_id : Text → ℕ → Text
own_mutation_id device seq = device ++ b':' ∷ decimal seq

-- One loaded mutation: an old one without a sequence is numbered by its place.
unfoldable pub load_mutation : Text → ℕ → PendingMutation → PendingMutation
unfolding own_mutation_id
load_mutation device index m =
    let sequence : ℕ = if m.seq == 0 then index + 1 else m.seq in
    record m { seq = sequence; id = if ltb 0 m.seq then m.id else own_mutation_id device sequence }

unfoldable pub load_from : Text → ℕ → List PendingMutation → List PendingMutation
unfolding load_mutation
load_from device index [] = []
load_from device index (m ∷ ms) = load_mutation device index m ∷ load_from device (index + 1) ms

-- `mutations.reduce((maximum, mutation) => Math.max(maximum, mutation.seq), maximum)`
unfoldable pub max_seq : ℕ → List PendingMutation → ℕ
max_seq maximum [] = maximum
max_seq maximum (m ∷ ms) = max_seq (max maximum m.seq) ms

-- `loadMutations`
unfoldable pub load_mutations :
    Option (List PendingMutation) → ℕ → LocalOperationStore → LocalOperationStore
unfolding load_from max_seq
load_mutations mutations next s =
    let loaded = load_from s.device_id 0 (get_or mutations []) in
    record s {
      pending_mutations = loaded;
      next_mutation_seq = max (next - 1) (max_seq 0 loaded) + 1;
    }

-- `enqueueMutation`
unfoldable pub enqueue_mutation :
    PendingMutationType
    → Text
    → (epoch : Option Text) → (base_revision : Option ℕ) → MutationOptions
    → (now : ℕ) → LocalOperationStore
    → LocalOperationStore × PendingMutation
unfolding own_mutation_id
enqueue_mutation type path epoch base_revision options now s =
    let m : PendingMutation = record {
      id = own_mutation_id s.device_id s.next_mutation_seq;
      seq = s.next_mutation_seq;
      epoch = epoch;
      type = type;
      base_revision = base_revision;
      path = path;
      target_path = options.target_path;
      resource_kind = options.resource_kind;
      sha256 = options.sha256;
      baseline_sha256 = options.baseline_sha256;
      created_at = now;
    } in
    (
      record s {
        pending_mutations = s.pending_mutations ++ m ∷ [];
        next_mutation_seq = s.next_mutation_seq + 1;
      },
      m,
    )

pub data FloorError : Type 0 where
  another_installation gap : FloorError

-- What `ensureSequenceFloor` does: the new store, or the error that it throws.
pub data Floored : Type 0 where
  floored : LocalOperationStore → Floored
  refused : FloorError → Floored

-- The loop of `ensureSequenceFloor`: the next expected sequence.
unfoldable pub expect_from : Text → (watermark expected : ℕ) → List PendingMutation → FloorError ⊎ ℕ
unfolding own_mutation_id
expect_from device watermark expected [] = inr expected
expect_from device watermark expected (m ∷ ms) =
    let skip = expect_from device watermark expected ms in
    let take = expect_from device watermark (expected + 1) ms in
    if m.id != own_mutation_id device m.seq
    then inl another_installation
    else if leb m.seq watermark
    then skip
    else if m.seq != expected
    then inl gap
    else take

-- `ensureSequenceFloor`
unfoldable pub ensure_sequence_floor : ℕ → LocalOperationStore → Floored
unfolding expect_from
ensure_sequence_floor watermark s =
    elim (expect_from s.device_id watermark (watermark + 1) s.pending_mutations) [
      | inl error ↦ refused error
      | inr expected ↦ floored (record s { next_mutation_seq = max s.next_mutation_seq expected })
    ]

-- `resetForEpoch`
unfoldable pub reset_for_epoch : Text → LocalOperationStore → LocalOperationStore
reset_for_epoch epoch s = record s {
  pending_mutations = [];
  pending_physical_actions = filter (λ a. a.epoch == some epoch) s.pending_physical_actions;
  next_mutation_seq = 1;
}
