-- ===== src/Reconciliation/Resolve/Settled.antt =====
-- What a path that was fully applied asks for at the next reconciliation.
use obsidian_yandex_disk_syn.Common.{
  ℕ, ◌≡◌, ◌≢◌, inl, inr, Bool, true, false, ◌||◌, Option, some, [], arith, if◌then◌else◌, truthy,
  is_some, ◌==◌, nat_eq, bool_eq, option_eq, list_eq, Option-cases,
}
use obsidian_yandex_disk_syn.Common.Text.{Text}
use obsidian_yandex_disk_syn.Common.Dict.{lookup}
use obsidian_yandex_disk_syn.Reconciliation.Operation.{SyncAction, upload, download, conflict, keep}
use obsidian_yandex_disk_syn.Types.{FileMetadata, SyncIndex}
use obsidian_yandex_disk_syn.Local.Baseline.{
  has_local_content_changed, has_canonical_metadata_changed, get_remote_physical_drift,
}
use obsidian_yandex_disk_syn.Reconciliation.Resolve.{resolve_action}
use obsidian_yandex_disk_syn.Local.Observed.{
  LocalSyncState, observed_entry, mark_remote_observed, lookup-observe_files, adopt_files,
}

-- The physical file carries an identity of the server.
abbrev pub is_identified : FileMetadata → Bool
is_identified m = is_some m.remote_fingerprint || is_some m.remote_mtime

-- The canonical entry is live and describes the physical file.
abbrev pub Describes : (index remote : FileMetadata) → Type 0
Describes index remote =
    (index.remote_fingerprint ≡ remote.remote_fingerprint)
    × (index.remote_mtime ≡ remote.remote_mtime)
    × (truthy index.deleted ≡ false)

-- The three-way decision between contents: the one that was applied, the local one and the
-- canonical one.
unfoldable pub next_action : (applied here later : Text) → SyncAction
next_action applied here later =
    if here == applied
    then (if later == applied then keep else download)
    else (if later == applied then upload else conflict)

decision_after :
    (path : Text) (baseline index later here physical : FileMetadata) (pending : Bool)
    → Describes later physical
    → is_identified physical ≡ true
    → later.deleted ≡ index.deleted
    → here.sha256 ≢ physical.sha256
    → (resolve_action path
        (some here)
        (some physical)
        (some (observed_entry baseline (some index)))
        (some later)
        pending).action
      ≡ next_action index.sha256 here.sha256 later.sha256
unfolding resolve_action has_local_content_changed has_canonical_metadata_changed
    get_remote_physical_drift observed_entry next_action
decision_after path baseline index later here physical pending d i l n = ground arith

mark_remote_observed-file :
    (target : Option Text) (remote : SyncIndex) (next_seq now : ℕ) (s : LocalSyncState)
    (path : Text) (index base : FileMetadata)
    → lookup path remote.files ≡ some index
    → lookup path (mark_remote_observed target remote next_seq now s).files ≡ some base
    → (baseline : FileMetadata) × (base ≡ observed_entry baseline (some index))
unfolding mark_remote_observed
mark_remote_observed-file target remote next_seq now s path index base e h =
    let files =
      if target == some remote.epoch then adopt_files s.files [] remote.files else s.files in
    elim (Option-cases (lookup path files)) [
      | inl absent ↦ absurd (ground (arith, lookup-observe_files path files remote.files))
      | inr (baseline, there) ↦
          (baseline, ground (arith, lookup-observe_files path files remote.files))
    ]

-- Once a canonical state is fully applied, the next decision of a path compares contents alone:
-- let the path have a baseline after `markRemoteObserved` and an entry in the state that was
-- applied, and later a live canonical entry of the same liveness that describes the physical file,
-- which carries an identity of the server. If the local content is not the physical one, the
-- decision is to keep, download, upload or report a conflict according to which of the local and
-- the later canonical content differ from the applied one.
pub resolve_action-mark_remote_observed :
    (target : Option Text) (remote : SyncIndex) (next_seq now : ℕ) (s : LocalSyncState)
    (path : Text) (index base later here physical : FileMetadata) (pending : Bool)
    → lookup path remote.files ≡ some index
    → lookup path (mark_remote_observed target remote next_seq now s).files ≡ some base
    → Describes later physical
    → is_identified physical ≡ true
    → later.deleted ≡ index.deleted
    → here.sha256 ≢ physical.sha256
    → (resolve_action path
        (some here)
        (some physical)
        (lookup path (mark_remote_observed target remote next_seq now s).files)
        (some later)
        pending).action
      ≡ next_action index.sha256 here.sha256 later.sha256
resolve_action-mark_remote_observed target remote next_seq now s path index base later here physical
      pending e h d i l n =
    let (baseline, eq) =
      mark_remote_observed-file target remote next_seq now s path index base e h in
    rw (h, eq) (decision_after path baseline index later here physical pending d i l n)
