-- ===== src/Files/Actions.antt =====
-- src/sync/files/action-rules.ts: when a durable physical action may still be carried out.
use obsidian_yandex_disk_syn.Common.{
  ℕ, ◌≡◌, refl, ◌≢◌, ◌↔◌, ◌⊎◌, inl, inr, Bool, true, false, not, ◌&&◌, ◌||◌, Option, none, some,
  ◌∷◌, arith, if◌then◌else◌, truthy, is_some, ◌==◌, ◌!=◌, nat_eq, bool_eq, option_eq, list_eq,
}
use obsidian_yandex_disk_syn.Common.Text.{Text}
use obsidian_yandex_disk_syn.Common.Dict.{lookup}
use obsidian_yandex_disk_syn.Types.{
  FileMetadata, SyncIndex, YandexResource, PendingPhysicalAction, PhysicalActionOrigin,
  exact_delete, rejected_upload, force_reset,
}
use obsidian_yandex_disk_syn.Files.Fingerprint.{
  non_empty, get_physical_resource_fingerprint, matches_physical_resource_fingerprint,
}

pub data PhysicalDeleteFingerprintDecision : Type 0 where
  matching missing_expected missing_current mismatch : PhysicalDeleteFingerprintDecision

-- `metadata?.deleted === true`
abbrev pub is_deleted : Option FileMetadata → Bool
is_deleted none = false
is_deleted (some m) = truthy m.deleted

-- The target of a rejected upload is live and still holds the content that the upload replaced.
abbrev has_target : Option FileMetadata → Option Text → Bool
has_target none baseline = false
has_target (some target) none = not (truthy target.deleted)
has_target (some target) (some sha) = not (truthy target.deleted) && target.sha256 == sha

-- The branches of `isPhysicalDeleteAuthorized` behind the epoch.
unfoldable pub authorized_by :
    PhysicalActionOrigin → Option Text → Option Text → SyncIndex → Option FileMetadata → Bool
authorized_by force_reset target baseline canonical metadata =
    not (is_some metadata) || is_deleted metadata
authorized_by rejected_upload target baseline canonical metadata = elim (non_empty target) [
  | none ↦ is_deleted metadata
  | some path ↦ not (is_some metadata) && has_target (lookup path canonical.files) baseline
]
authorized_by _ target baseline canonical metadata = is_deleted metadata

-- `isPhysicalDeleteAuthorized`
unfoldable pub is_physical_delete_authorized : PendingPhysicalAction → SyncIndex → Bool
unfolding authorized_by
is_physical_delete_authorized action canonical =
    if action.epoch != some canonical.epoch
    then false
    else authorized_by action.origin action.target_path action.baseline_sha256 canonical
        (lookup action.path canonical.files)

-- `classifyPhysicalDeleteFingerprint`
unfoldable pub classify_physical_delete_fingerprint :
    Option Text → Option Text → PhysicalDeleteFingerprintDecision
classify_physical_delete_fingerprint expected current = elim (non_empty expected) [
  | none ↦ missing_expected
  | some wanted ↦ elim (non_empty current) [
    | none ↦ missing_current
    | some found ↦ if wanted == found then matching else mismatch
  ]
]

-- `classifyPhysicalDeleteResource`
unfoldable pub classify_physical_delete_resource :
    Option Text → Option YandexResource → PhysicalDeleteFingerprintDecision
classify_physical_delete_resource expected resource = elim (non_empty expected) [
  | none ↦ missing_expected
  | some _ ↦ elim (non_empty (get_physical_resource_fingerprint resource)) [
    | none ↦ missing_current
    | some _ ↦
        if matches_physical_resource_fingerprint expected resource then matching else mismatch
  ]
]

-- `shouldBackupLocalDelete`
unfoldable pub should_backup_local_delete : Text → Option Text → Bool
should_backup_local_delete current none = true
should_backup_local_delete current (some baseline) = current != baseline

-- The canonical index holds no live file at the path.
abbrev pub HasNoLiveFile : SyncIndex → Text → Type 0
HasNoLiveFile canonical path =
    (lookup path canonical.files ≡ none)
    ⊎ ((m : FileMetadata) × (lookup path canonical.files ≡ some m) × (m.deleted ≡ some true))

not_live :
    (o : Option FileMetadata)
    → (o ≡ none) ⊎ (is_deleted o ≡ true)
    → (o ≡ none) ⊎ ((m : FileMetadata) × (o ≡ some m) × (m.deleted ≡ some true))
not_live none h = inl refl
not_live (some m) h = inr (m, refl, ground arith)

authorized_by_not_live :
    (origin : PhysicalActionOrigin) (target baseline : Option Text) (canonical : SyncIndex)
    (o : Option FileMetadata)
    → authorized_by origin target baseline canonical o ≡ true
    → (o ≡ none) ⊎ (is_deleted o ≡ true)
unfolding authorized_by
authorized_by_not_live exact_delete target baseline canonical o h = ground arith
authorized_by_not_live force_reset target baseline canonical o h = ground arith
authorized_by_not_live rejected_upload target baseline canonical o h = ground arith
authorized_by_not_live _ target baseline canonical o h = ground arith

-- An authorised deletion is of the current epoch, and never of a path at which the canonical index
-- holds a live file, whatever the action came from.
pub is_physical_delete_authorized_safe :
    (action : PendingPhysicalAction) (canonical : SyncIndex)
    → is_physical_delete_authorized action canonical ≡ true
    → (action.epoch ≡ some canonical.epoch) × HasNoLiveFile canonical action.path
unfolding is_physical_delete_authorized
is_physical_delete_authorized_safe action canonical h = (
  ground arith,
  not_live _ (
      authorized_by_not_live action.origin action.target_path action.baseline_sha256 canonical _
        (ground arith)),
)

-- The physical deletion of a resource goes ahead exactly when the expected fingerprint is one of
-- the identities that the disk reports for it, and the resource has an identity at all.
pub classify_physical_delete_resource_iff :
    (c : ℕ) (wanted : Text) (r : YandexResource)
    → (classify_physical_delete_resource (some (c ∷ wanted)) (some r) ≡ matching) ↔ (
        (non_empty (get_physical_resource_fingerprint (some r)) ≢ none)
        × ((r.sha256 ≡ some (c ∷ wanted))
            ⊎ (r.md5 ≡ some (c ∷ wanted))
            ⊎ (r.resource_id ≡ some (c ∷ wanted))
            ⊎ (r.modified ≡ c ∷ wanted)))
unfolding classify_physical_delete_resource matches_physical_resource_fingerprint
classify_physical_delete_resource_iff c wanted r = (λ h. ground arith, λ h. ground arith)
