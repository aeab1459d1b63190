-- ===== src/Realtime/Events.antt =====
-- src/sync/realtime/rules.ts and src/sync/realtime/queue-rules.ts: the events of the watcher and what
-- a batch answers about them.
use obsidian_yandex_disk_syn.Common.{
  ℕ, ◌≡◌, refl, Bool, Option, nat_eq, bool_eq, option_eq, list_eq,
}
use obsidian_yandex_disk_syn.Common.Text.{Text}

pub data FileAction : Type 0 where
  upload delete : FileAction

pub record RealtimeFileEvent : Type 0 where
  pub id : Text
  pub path : Text
  pub action : FileAction
  pub created_at : ℕ
  pub epoch : Option Text
  pub base_revision : Option ℕ
  pub mutation_id : Option Text
  pub mutation_seq : Option ℕ
  pub snapshot_sha256 : Option Text
  pub superseded_by_rename_id : Option Text
  pub superseded : Option Bool

pub record DurableFileRenameEvent : Type 0 where
  pub id : Text
  pub path : Text
  pub target_path : Text
  pub created_at : ℕ
  pub epoch : Option Text
  pub base_revision : Option ℕ
  pub mutation_id : Option Text
  pub mutation_seq : Option ℕ
  pub predecessor_upload_id : Option Text
  pub predecessor_folder_event_id : Option Text
  pub folder_parent_ambiguous : Option Bool

pub record DurableFolderDeleteEvent : Type 0 where
  pub id : Text
  pub path : Text
  pub created_at : ℕ
  pub epoch : Option Text
  pub base_revision : Option ℕ
  pub mutation_id : Option Text
  pub mutation_seq : Option ℕ
  pub predecessor_folder_event_id : Option Text

pub record DurableFolderRenameEvent : Type 0 where
  pub id : Text
  pub path : Text
  pub target_path : Text
  pub created_at : ℕ
  pub epoch : Option Text
  pub base_revision : Option ℕ
  pub mutation_id : Option Text
  pub mutation_seq : Option ℕ
  pub predecessor_folder_event_id : Option Text

-- The union over `action` and `kind`.
pub data WatcherQueueEvent : Type 0 where
  file_event : RealtimeFileEvent → WatcherQueueEvent
  folder_delete : DurableFolderDeleteEvent → WatcherQueueEvent
  folder_rename : DurableFolderRenameEvent → WatcherQueueEvent
  file_rename : DurableFileRenameEvent → WatcherQueueEvent

abbrev pub id_of : WatcherQueueEvent → Text
id_of (file_event e) = e.id
id_of (folder_delete e) = e.id
id_of (folder_rename e) = e.id
id_of (file_rename e) = e.id

abbrev pub path_of : WatcherQueueEvent → Text
path_of (file_event e) = e.path
path_of (folder_delete e) = e.path
path_of (folder_rename e) = e.path
path_of (file_rename e) = e.path

pub data ReceiptStatus : Type 0 where
  pending_put accepted_put rejected_put confirmed_unchanged : ReceiptStatus

pub record UploadCausalReceipt : Type 0 where
  pub event_id : Text
  pub path : Text
  pub status : ReceiptStatus
  pub epoch : Option Text
  pub canonical_revision : Option ℕ
  pub mutation_id : Option Text
  pub mutation_seq : Option ℕ
  pub sha256 : Option Text

-- `DurableRenameEvent`: what the reduction of a chain uses of a rename of either kind.
pub record RenameEvent {ℓ} (T : Type ℓ) : Type ℓ where
  pub rename_id : T → Text
  pub source : T → Text
  pub target : T → Text
  pub with_target : T → Text → T
  pub rename_id-with_target :
      (event : T) (path : Text) → rename_id (with_target event path) ≡ rename_id event
  pub source-with_target :
      (event : T) (path : Text) → source (with_target event path) ≡ source event
  pub target-with_target : (event : T) (path : Text) → target (with_target event path) ≡ path

instance unfoldable pub file_rename_event : RenameEvent DurableFileRenameEvent
file_rename_event = record {
  rename_id = λ event. event.id;
  source = λ event. event.path;
  target = λ event. event.target_path;
  with_target = λ event path. record event { target_path = path };
  rename_id-with_target = λ event path. refl;
  source-with_target = λ event path. refl;
  target-with_target = λ event path. refl;
}

instance unfoldable pub folder_rename_event : RenameEvent DurableFolderRenameEvent
folder_rename_event = record {
  rename_id = λ event. event.id;
  source = λ event. event.path;
  target = λ event. event.target_path;
  with_target = λ event path. record event { target_path = path };
  rename_id-with_target = λ event path. refl;
  source-with_target = λ event path. refl;
  target-with_target = λ event path. refl;
}
