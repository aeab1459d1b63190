-- ===== src/Realtime/Waiting.antt =====
-- src/sync/realtime/queue-rules.ts: the state of a queue reduction, which events are submitted, and
-- which stay next to a new event.
use obsidian_yandex_disk_syn.Common.{
  ℕ, Bool, true, ◌||◌, Option, none, List, [], ◌∷◌, ◌++◌, if◌then◌else◌, ◌==◌, ◌!=◌, nat_eq,
  bool_eq, option_eq, list_eq, filter, has,
}
use obsidian_yandex_disk_syn.Common.Text.{Text}
use obsidian_yandex_disk_syn.Realtime.Events.{
  RealtimeFileEvent, DurableFileRenameEvent, DurableFolderRenameEvent, WatcherQueueEvent,
  file_event, folder_rename, file_rename, id_of, path_of, file_rename_event, folder_rename_event,
}
use obsidian_yandex_disk_syn.Realtime.Rename.{ChainDisposition}

pub record WatcherQueueContext : Type 0 where
  pub submitted_file_ids : List Text
  pub submitted_watcher_ids : List Text

pub data QueueDisposition : Type 0 where
  queued_event rebased_event absorbed_event : QueueDisposition

pub record WatcherQueueReduction : Type 0 where
  pub events : List WatcherQueueEvent
  pub event : WatcherQueueEvent
  pub disposition : QueueDisposition
  pub chain : Option (ChainDisposition × Text)
  pub folder_child : Option (Option Text × Bool)
  pub absorbed_children : ℕ
  pub deleted_rename_id : Option Text
  pub absorbed_descendant_events : Option ℕ

abbrev pub is_submitted_id : WatcherQueueContext → Text → Bool
is_submitted_id context id =
    has context.submitted_file_ids id || has context.submitted_watcher_ids id

-- `isSubmitted`
abbrev pub is_submitted : WatcherQueueContext → WatcherQueueEvent → Bool
is_submitted context event = is_submitted_id context (id_of event)

-- `shouldRetainQueuedFileEvent`
unfoldable pub should_retain_queued_file_event :
    RealtimeFileEvent → RealtimeFileEvent → List Text → Bool
should_retain_queued_file_event existing incoming submitted_ids =
    existing.path != incoming.path || has submitted_ids existing.id

-- The last filter: does the candidate stay in the queue next to the final event?
unfoldable pub stays : WatcherQueueContext → WatcherQueueEvent → WatcherQueueEvent → Bool
unfolding should_retain_queued_file_event
stays context (file_event e) (file_event candidate) =
    is_submitted context (file_event candidate)
    || should_retain_queued_file_event candidate e context.submitted_file_ids
stays context (file_event e) candidate = true
stays context event candidate = is_submitted context candidate || path_of candidate != path_of event

-- `result` as the reduction starts.
unfoldable pub initial : List WatcherQueueEvent → WatcherQueueEvent → WatcherQueueReduction
initial existing event = record {
  events = existing;
  event = event;
  disposition = queued_event;
  chain = none;
  folder_child = none;
  absorbed_children = 0;
  deleted_rename_id = none;
  absorbed_descendant_events = none;
}

-- The end of the reduction, from the events and the event of `r`.
unfoldable pub enqueue : WatcherQueueContext → WatcherQueueReduction → WatcherQueueReduction
unfolding stays
enqueue context r = record r { events = filter (stays context r.event) r.events ++ r.event ∷ [] }

abbrev pub folder_renames : List WatcherQueueEvent → List DurableFolderRenameEvent
folder_renames [] = []
folder_renames (folder_rename e ∷ events) = e ∷ folder_renames events
folder_renames (_ ∷ events) = folder_renames events

abbrev pub file_renames : List WatcherQueueEvent → List DurableFileRenameEvent
file_renames [] = []
file_renames (file_rename e ∷ events) = e ∷ file_renames events
file_renames (_ ∷ events) = file_renames events

-- `replaceRename`
unfoldable pub replace_rename : WatcherQueueEvent → List WatcherQueueEvent → List WatcherQueueEvent
replace_rename predecessor [] = []
replace_rename predecessor (candidate ∷ events) =
    (if id_of candidate == id_of predecessor then predecessor else candidate)
    ∷ replace_rename predecessor events
