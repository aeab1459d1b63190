-- ===== src/Types.antt =====
-- src/types.ts: the canonical index, its entries, and the durable local work. An optional field
-- is an `Option`, whose `none` is the absent (or undefined) field, and `T | null` is an `Option`
-- too. Times and counters are whole numbers.
use obsidian_yandex_disk_syn.Common.{ℕ, Bool, Option, none, List, [], Eq, ℕ_discrete}
use obsidian_yandex_disk_syn.Common.Text.{Text}
use obsidian_yandex_disk_syn.Common.Dict.{Dict}

pub record FileMetadata : Type 0 where
  pub path : Text
  pub sha256 : Text
  pub size : ℕ
  pub mtime : ℕ
  pub synced_at : ℕ
  pub remote_mtime : Option ℕ
  pub remote_fingerprint : Option Text
  pub deleted : Option Bool
  pub deleted_at : Option ℕ
  pub deleted_by_folder : Option Text
  pub last_modified_by : Option Text
  pub mutation_seq : Option ℕ
  pub changed_revision : Option ℕ
  pub base_revision : Option ℕ

pub record FolderTombstone : Type 0 where
  pub path : Text
  pub deleted_at : ℕ
  pub changed_revision : ℕ
  pub base_revision : ℕ
  pub last_modified_by : Text
  pub mutation_seq : Option ℕ

pub data ResourceKind : Type 0 where
  file folder : ResourceKind

pub record IndexMove : Type 0 where
  pub id : Text
  pub from_path : Text
  pub to_path : Text
  pub kind : ResourceKind
  pub base_revision : ℕ
  pub changed_revision : ℕ
  pub pending : Bool
  pub last_modified_by : Text
  pub mutation_seq : Option ℕ

pub data TransitionPhase : Type 0 where
  prepared files_copied index_committed stable cleanup applying : TransitionPhase

pub record EncryptionModeDescriptor : Type 0 where
  pub enabled : Bool
  pub revision : Option ℕ
  pub salt : Option Text
  pub verifier : Option Text

pub record EncryptionReplacementScope : Type 0 where
  pub sync_patterns : List Text
  pub exclude_patterns : List Text
  pub sync_dot_obsidian : Bool
  pub config_dir : Text

pub data DeleteKind : Type 0 where
  file dir : DeleteKind

pub record RecursiveDeleteAction : Type 0 where
  pub path : Text
  pub kind : DeleteKind

pub record EncryptionReplacement : Type 0 where
  pub source_epoch : Text
  pub target_epoch : Text
  pub scope : EncryptionReplacementScope
  pub preserved_raw_paths : List Text
  pub deletions : List RecursiveDeleteAction

pub record EncryptionEpochAdoption : Type 0 where
  pub operation_id : Text
  pub initiated_by : Text
  pub scope : EncryptionReplacementScope
  pub preserved_raw_paths : List Text

pub record IndexMaintenanceCleanupAction : Type 0 where
  pub path : Text
  pub expected_fingerprint : Text

pub data ForceDirection : Type 0 where
  from_local from_remote : ForceDirection

-- The `kind` of a maintenance, with the fields that only a Force has.
pub data MaintenanceKind : Type 0 where
  enable disable rotate : MaintenanceKind
  force : (direction : ForceDirection) (source_digest : Text) → MaintenanceKind

-- `IndexMaintenance`, the union of the encryption and the Force maintenance.
pub record IndexMaintenance : Type 0 where
  pub id : Text
  pub kind : MaintenanceKind
  pub phase : TransitionPhase
  pub initiated_by : Text
  pub source_revision : ℕ
  pub target_revision : Option ℕ
  pub source : EncryptionModeDescriptor
  pub target : EncryptionModeDescriptor
  pub cleanup_actions : List IndexMaintenanceCleanupAction
  pub replacement : Option EncryptionReplacement

pub record SyncIndex : Type 0 where
  pub epoch : Text
  pub revision : ℕ
  pub last_sync_time : ℕ
  pub device_id : Text
  pub files : Dict Text FileMetadata
  pub folder_tombstones : Dict Text FolderTombstone
  pub moves : Dict Text IndexMove
  pub applied_mutation_seq : Dict Text ℕ
  pub maintenance : Option IndexMaintenance
  pub epoch_adoption : Option EncryptionEpochAdoption

unfoldable pub create_empty_index : Text → Text → SyncIndex
create_empty_index device epoch = record {
  epoch = epoch;
  revision = 0;
  last_sync_time = 0;
  device_id = device;
  files = [];
  folder_tombstones = [];
  moves = [];
  applied_mutation_seq = [];
  maintenance = none;
  epoch_adoption = none;
}

pub data PendingMutationType : Type 0 where
  put noop delete_file delete_folder move : PendingMutationType

pub record PendingMutation : Type 0 where
  pub id : Text
  pub seq : ℕ
  pub epoch : Option Text
  pub type : PendingMutationType
  pub base_revision : Option ℕ
  pub path : Text
  pub target_path : Option Text
  pub resource_kind : Option ResourceKind
  pub sha256 : Option Text
  pub baseline_sha256 : Option Text
  pub created_at : ℕ

pub data PhysicalActionType : Type 0 where
  delete_local delete_remote move_remote guarded_cleanup : PhysicalActionType

pub data PhysicalActionOrigin : Type 0 where
  exact_delete folder_delete moved rejected_upload encryption_cleanup force_reset :
      PhysicalActionOrigin

pub record PendingPhysicalAction : Type 0 where
  pub id : Text
  pub type : PhysicalActionType
  pub epoch : Option Text
  pub origin : PhysicalActionOrigin
  pub path : Text
  pub target_path : Option Text
  pub parent_mutation_id : Option Text
  pub canonical_revision : ℕ
  pub expected_fingerprint : Option Text
  pub expected_changed_revision : Option ℕ
  pub expected_target_fingerprint : Option Text
  pub baseline_sha256 : Option Text
  pub created_at : ℕ

-- The fields of a Yandex Disk resource that identify its content.
pub record YandexResource : Type 0 where
  pub path : Text
  pub modified : Text
  pub size : Option ℕ
  pub md5 : Option Text
  pub sha256 : Option Text
  pub resource_id : Option Text

-- Two canonical values are the same if they serialise to the same JSON with ordered keys, which
-- for these types is equality of all fields.
FileMetadata-discrete : Discrete FileMetadata
FileMetadata-discrete = hlevel ℕ_discrete

FolderTombstone-discrete : Discrete FolderTombstone
FolderTombstone-discrete = hlevel ℕ_discrete

IndexMove-discrete : Discrete IndexMove
IndexMove-discrete = hlevel ℕ_discrete

IndexMaintenance-discrete : Discrete IndexMaintenance
IndexMaintenance-discrete = hlevel ℕ_discrete

EncryptionEpochAdoption-discrete : Discrete EncryptionEpochAdoption
EncryptionEpochAdoption-discrete = hlevel ℕ_discrete

TransitionPhase-discrete : Discrete TransitionPhase
TransitionPhase-discrete = hlevel

instance unfoldable pub file_metadata_eq : Eq FileMetadata
unfolding FileMetadata-discrete
file_metadata_eq = record { dec = FileMetadata-discrete }

instance unfoldable pub folder_tombstone_eq : Eq FolderTombstone
unfolding FolderTombstone-discrete
folder_tombstone_eq = record { dec = FolderTombstone-discrete }

instance unfoldable pub index_move_eq : Eq IndexMove
unfolding IndexMove-discrete
index_move_eq = record { dec = IndexMove-discrete }

instance unfoldable pub index_maintenance_eq : Eq IndexMaintenance
unfolding IndexMaintenance-discrete
index_maintenance_eq = record { dec = IndexMaintenance-discrete }

instance unfoldable pub epoch_adoption_eq : Eq EncryptionEpochAdoption
unfolding EncryptionEpochAdoption-discrete
epoch_adoption_eq = record { dec = EncryptionEpochAdoption-discrete }

instance unfoldable pub transition_phase_eq : Eq TransitionPhase
unfolding TransitionPhase-discrete
transition_phase_eq = record { dec = TransitionPhase-discrete }

PhysicalActionType-discrete : Discrete PhysicalActionType
PhysicalActionType-discrete = hlevel

instance unfoldable pub physical_action_type_eq : Eq PhysicalActionType
unfolding PhysicalActionType-discrete
physical_action_type_eq = record { dec = PhysicalActionType-discrete }
