-- ===== src/Canonical/Merge/Context.antt =====
-- src/sync/canonical/merge.ts and src/sync/canonical/transaction-rules.ts: what a reduction is
-- given, what it answers, and how it fails.
use obsidian_yandex_disk_syn.Common.{
  ℕ, ◌+◌, ◌≡◌, refl, Bool, true, false, ◌&&◌, Option, none, some, List, is_some, ◌==◌, ◌!=◌, nat_eq,
  bool_eq, option_eq, list_eq, if◌then◌else◌,
}
use obsidian_yandex_disk_syn.Common.Text.{Text}
use obsidian_yandex_disk_syn.Types.{
  SyncIndex, PendingMutation, TransitionPhase, index_committed, cleanup, stable,
}
use obsidian_yandex_disk_syn.Canonical.Mutation.{FileMutationDecision}

pub data CanonicalMergeMode : Type 0 where
  normal physical_rewrite encryption_replacement : CanonicalMergeMode
  target_recovery : (maintenance_id : Text) → CanonicalMergeMode
  replacement : (replacement_deleted_at : ℕ) → CanonicalMergeMode

pub record CanonicalMergeInput : Type 0 where
  pub latest : SyncIndex
  pub loaded_base : SyncIndex
  pub desired : SyncIndex
  pub device_id : Text
  pub base_revision : ℕ
  pub mode : CanonicalMergeMode
  pub completed_move_ids : List Text
  pub put_baselines : List PendingMutation

pub data RejectReason : Type 0 where
  by_delete by_conflict : RejectReason

pub record RejectedCanonicalPut : Type 0 where
  pub path : Text
  pub reason : RejectReason
  pub remote_fingerprint : Text
  pub baseline_sha256 : Option Text

pub record CanonicalMergeDiagnostic : Type 0 where
  pub path : Text
  pub decision : FileMutationDecision
  pub base_revision : ℕ
  pub current_revision : Option ℕ
  pub mutation_seq : Option ℕ
  pub device_id : Text

-- The variables of the reduction: `merged`, `changed`, `rejectedPuts` and `diagnostics`.
pub record Progress : Type 0 where
  pub index : SyncIndex
  pub changed : Bool
  pub rejected_puts : List RejectedCanonicalPut
  pub diagnostics : List CanonicalMergeDiagnostic

-- The messages of `RemoteIndexConcurrentModificationError`.
pub data ConcurrentModification : Type 0 where
  encryption_authority_changed maintenance_changed receipt_authority_changed
        recovery_authority_changed recovery_target_changed revision_before_ownership
        canonical_file_changed :
      ConcurrentModification
  logical_state_changed : (path : Text) → ConcurrentModification

pub data IndexSection : Type 0 where
  files folder_tombstones moves : IndexSection

-- The messages of `InvalidCurrentIndexError`.
pub data InvalidIndex : Type 0 where
  missing_sequence zero_sequence required_sequence beyond_watermark : InvalidIndex
  rejected : FileMutationDecision → InvalidIndex

pub data MergeError : Type 0 where
  concurrent_modification : ConcurrentModification → MergeError
  invalid_current_index : IndexSection → InvalidIndex → MergeError

-- What a call answers, or the error that it throws.
pub data Result {ℓ} (A : Type ℓ) : Type ℓ where
  returned : A → Result A
  thrown : MergeError → Result A

-- `if (failed) throw error`
abbrev pub throw_if : Bool → MergeError → Result (Unit {0})
throw_if failed error = if failed then thrown error else returned tt

pub returned-injective {ℓ} : {A : Type ℓ} {a b : A} → returned a ≡ returned b → a ≡ b
returned-injective h = cc

module _ {ℓ κ} {A : Type ℓ} {B : Type κ} where
  infixl 5 ◌>>=◌
  -- A thrown error skips the statements below it.
  abbrev pub ◌>>=◌ : Result A → (A → Result B) → Result B
  thrown error >>= rest = thrown error
  returned value >>= rest = rest value

  pub >>=-eq-returned :
      (first : Result A) (rest : A → Result B) {answer : B}
      → (first >>= rest) ≡ returned answer
      → (value : A) × (first ≡ returned value) × (rest value ≡ returned answer)
  >>=-eq-returned (returned value) rest h = (value, refl, h)
  >>=-eq-returned (thrown error) rest h = cc

infixl 5 ◌>>◌
abbrev pub ◌>>◌ {ℓ} : {B : Type ℓ} → Result (Unit {0}) → Result B → Result B
check >> rest = check >>= λ _. rest

-- `latest.revision + 1`
abbrev pub next_revision : CanonicalMergeInput → ℕ
next_revision input = input.latest.revision + 1

abbrev is_post_commit : TransitionPhase → Bool
is_post_commit index_committed = true
is_post_commit cleanup = true
is_post_commit stable = true
is_post_commit _ = false

-- `isTargetRecoveryIndex`, at an identity that is not null.
unfoldable pub is_target_recovery_index : SyncIndex → Text → Bool
is_target_recovery_index index maintenance_id = elim index.maintenance [
  | none ↦ false
  | some m ↦ m.id == maintenance_id && is_some m.target_revision && is_post_commit m.phase
]

-- `didCanonicalChangeBeforeMaintenanceClaim`
unfoldable pub did_canonical_change_before_maintenance_claim : ℕ → ℕ → Bool
did_canonical_change_before_maintenance_claim observed current = current != observed
