-- ===== src/Local/Observed.antt =====
-- src/types.ts and src/sync/canonical/manager.ts: the causal state of this device, and what it
-- records when a canonical state is fully applied.
use obsidian_yandex_disk_syn.Common.{
  ℕ, ◌≡◌, refl, Option, none, some, [], ◌∷◌, arith, if◌then◌else◌, ◌==◌, nat_eq, bool_eq, option_eq,
  list_eq,
}
use obsidian_yandex_disk_syn.Common.Text.{Text}
use obsidian_yandex_disk_syn.Common.Dict.{Dict, lookup, insert}
use obsidian_yandex_disk_syn.Types.{
  FileMetadata, FolderTombstone, SyncIndex, EncryptionReplacementScope,
}

pub record RemoteStorageScope : Type 0 where
  pub remote_path : Text
  pub root_resource_id : Text

pub record LocalReplacementReceive : Type 0 where
  pub operation_id : Text
  pub epoch : Text
  pub scope : EncryptionReplacementScope
  pub initial : Dict Text Text
  pub applied : Dict Text Text
  pub watcher_boundary : Dict Text Text

pub record LocalSyncState : Type 0 where
  pub replacement_receive : Option LocalReplacementReceive
  pub remote_scope : Option RemoteStorageScope
  pub device_id : Text
  pub observed_epoch : Option Text
  pub observed_revision : ℕ
  pub last_sync_time : ℕ
  pub files : Dict Text FileMetadata
  pub folder_tombstones : Dict Text FolderTombstone
  pub next_mutation_seq : ℕ

-- The entry of an adopted epoch, with the local time of a file that holds its content.
unfoldable pub adopted_entry : Option FileMetadata → FileMetadata → FileMetadata
adopted_entry none canonical = canonical
adopted_entry (some here) canonical = record canonical {
  mtime = if here.sha256 == canonical.sha256 then here.mtime else canonical.mtime;
}

-- The loop that rebuilds the baselines of an adopted epoch.
unfoldable pub adopt_files :
    Dict Text FileMetadata → (adopted canonical : Dict Text FileMetadata) → Dict Text FileMetadata
unfolding adopted_entry
adopt_files files adopted [] = adopted
adopt_files files adopted ((path, canonical) ∷ rest) =
    adopt_files files (insert path (adopted_entry (lookup path files) canonical) adopted) rest

-- What a baseline takes from the canonical entry of its path.
unfoldable pub observed_entry : FileMetadata → Option FileMetadata → FileMetadata
observed_entry baseline none = baseline
observed_entry baseline (some canonical) = record baseline {
  sha256 = canonical.sha256;
  size = canonical.size;
  synced_at = canonical.synced_at;
  remote_mtime = canonical.remote_mtime;
  remote_fingerprint = canonical.remote_fingerprint;
  deleted = canonical.deleted;
  deleted_at = canonical.deleted_at;
  deleted_by_folder = canonical.deleted_by_folder;
  last_modified_by = canonical.last_modified_by;
  mutation_seq = canonical.mutation_seq;
  changed_revision = canonical.changed_revision;
  base_revision = canonical.base_revision;
}

-- The loop over `Object.entries(this.localState.files)`. It writes only the key that it visits.
unfoldable pub observe_files :
    Dict Text FileMetadata → (canonical : Dict Text FileMetadata) → Dict Text FileMetadata
unfolding observed_entry
observe_files [] canonical = []
observe_files ((path, baseline) ∷ files) canonical =
    (path, observed_entry baseline (lookup path canonical)) ∷ observe_files files canonical

-- `markRemoteObserved`. `target` is `epochAdoptionTarget`, `next_seq` the operation store's answer
-- and `now` the clock's.
unfoldable pub mark_remote_observed :
    (target : Option Text) → SyncIndex → (next_seq now : ℕ) → LocalSyncState → LocalSyncState
unfolding adopt_files observe_files
mark_remote_observed target remote next_seq now s =
    let files =
      if target == some remote.epoch then adopt_files s.files [] remote.files else s.files in
    record s {
      files = observe_files files remote.files;
      observed_epoch = some remote.epoch;
      observed_revision = remote.revision;
      folder_tombstones = remote.folder_tombstones;
      next_mutation_seq = next_seq;
      last_sync_time = now;
    }

pub lookup-observe_files :
    (path : Text) (files canonical : Dict Text FileMetadata)
    → lookup path (observe_files files canonical) ≡ elim (lookup path files) [
      | none ↦ none
      | some baseline ↦ some (observed_entry baseline (lookup path canonical))
    ]
unfolding lookup observe_files
lookup-observe_files path [] canonical = refl
lookup-observe_files path ((q, m) ∷ files) canonical =
    ground (arith, lookup-observe_files path files canonical)
