-- ===== src/Tests/Realtime.antt =====
-- The queue of the watcher, on concrete inputs.
use obsidian_yandex_disk_syn.Common.{
  ℕ, ◌≡◌, refl, ◌≢◌, ◌⊎◌, true, false, not, none, some, List, [], ◌∷◌, ◌++◌, map, nat_eq, bool_eq,
  option_eq, list_eq, any, filter, find,
}
use obsidian_yandex_disk_syn.Common.Text.{
  Text, codes, starts_with, trim_slashes, trim_cons, cut_last,
}
use obsidian_yandex_disk_syn.Realtime.Events.{
  FileAction, upload, delete, RealtimeFileEvent, DurableFileRenameEvent, DurableFolderRenameEvent,
  WatcherQueueEvent, file_event, file_rename, file_rename_event, folder_rename_event, accepted_put,
}
use obsidian_yandex_disk_syn.Realtime.Rename.{
  queued, rebased, reduce_rename_chain, leads_to, select_folder_rename_parent,
  map_path_through_folder_rename,
}
use obsidian_yandex_disk_syn.Realtime.Queue.{reduce_watcher_queue}
use obsidian_yandex_disk_syn.Realtime.Waiting.{WatcherQueueContext, is_submitted}
use obsidian_yandex_disk_syn.Realtime.Causal.{PostFullRenameState}
use obsidian_yandex_disk_syn.Realtime.Rename.Sorting.{
  IsBestParent, select_folder_rename_parent-IsBestParent,
}
use obsidian_yandex_disk_syn.Realtime.Rename.Chains.{Rebase, reduce_rename_chain_lem}
use obsidian_yandex_disk_syn.Realtime.Queue.Submitted.{submitted, RenamesApart}
use obsidian_yandex_disk_syn.Realtime.Queue.Kept.{submitted-reduce_watcher_queue}
use obsidian_yandex_disk_syn.Realtime.Queue.Unique.{UniqueFiles}
use obsidian_yandex_disk_syn.Realtime.Queue.Uniqueness.{reduce_watcher_queue-UniqueFiles}
use obsidian_yandex_disk_syn.Realtime.Partition.{retarget_folder_descendants, is_upload}
use obsidian_yandex_disk_syn.Realtime.Partition.Descendants.{
  map_path_round_trip, route_of, going_first, following, retarget_folder_descendants_lem,
}
use obsidian_yandex_disk_syn.Realtime.Receipts.{
  Settlement, settled_ids, reduce_upload_causal_receipts,
}
use obsidian_yandex_disk_syn.Realtime.Receipts.Settled.{
  without_causality, waits_for_settled, reduce_upload_causal_receipts_lem,
}
use obsidian_yandex_disk_syn.Tests.Samples.{note, laptop_note}

abbrev file_at_time : Text → Text → FileAction → ℕ → RealtimeFileEvent
file_at_time id path action time = record {
  id = id;
  path = path;
  action = action;
  created_at = time;
  epoch = some (codes "e");
  base_revision = some 4;
  mutation_id = none;
  mutation_seq = none;
  snapshot_sha256 = none;
  superseded_by_rename_id = none;
  superseded = none;
}

abbrev rename_at_time : Text → Text → Text → ℕ → DurableFileRenameEvent
rename_at_time id path target time = record {
  id = id;
  path = path;
  target_path = target;
  created_at = time;
  epoch = some (codes "e");
  base_revision = some 4;
  mutation_id = none;
  mutation_seq = none;
  predecessor_upload_id = some (codes "1");
  predecessor_folder_event_id = none;
  folder_parent_ambiguous = none;
}

-- The first upload was submitted; a second one of the path and a rename wait.
abbrev queue : List WatcherQueueEvent
queue =
    file_event (file_at_time (codes "1") (codes "a") upload 1)
    ∷ file_event (file_at_time (codes "2") (codes "a") upload 2)
    ∷ file_rename (rename_at_time (codes "3") (codes "a") (codes "f/b") 3)
    ∷ []

abbrev queue_context : WatcherQueueContext
queue_context = record { submitted_file_ids = codes "1" ∷ []; submitted_watcher_ids = [] }

abbrev delete_b : WatcherQueueEvent
delete_b = file_event (file_at_time (codes "4") (codes "f/b") delete 4)

delete_b-fresh : is_submitted queue_context delete_b ≡ false
unfolding nat_eq list_eq
delete_b-fresh = refl

queue-RenamesApart : RenamesApart queue_context queue
unfolding nat_eq list_eq
queue-RenamesApart = (λ h. cc, (λ h. cc, (λ h. refl, tt)))

queue-UniqueFiles : UniqueFiles queue_context queue
unfolding nat_eq list_eq
queue-UniqueFiles = (λ h. cc, (λ h. refl, (λ h. cc, tt)))

submitted-reduce_watcher_queue_example :
    submitted queue_context (reduce_watcher_queue queue delete_b queue_context).events
    ≡ submitted queue_context queue
submitted-reduce_watcher_queue_example =
    submitted-reduce_watcher_queue queue_context queue delete_b delete_b-fresh queue-RenamesApart

reduce_watcher_queue-UniqueFiles_example :
    UniqueFiles queue_context (reduce_watcher_queue queue delete_b queue_context).events
reduce_watcher_queue-UniqueFiles_example =
    reduce_watcher_queue-UniqueFiles queue_context queue delete_b queue-UniqueFiles

mapped : map_path_through_folder_rename (codes "f/b") (codes "f/") (codes "g") ≡ some (codes "g/b")
unfolding map_path_through_folder_rename trim_slashes trim_cons nat_eq
mapped = refl

map_path_round_trip_example :
    (starts_with (codes "g/b") (trim_slashes (codes "g") ++ b'/' ∷ []) ≡ true)
    × (map_path_through_folder_rename (codes "g/b") (codes "g") (codes "f/") ≡ some (codes "f/b"))
map_path_round_trip_example =
    map_path_round_trip (codes "f/b") (codes "f/") (codes "g") (codes "g/b") mapped

retarget_folder_descendants_lem_example :
    let r = retarget_folder_descendants queue (codes "f") (codes "g") none false in
    (map route_of r.predecessors
      ≡ map
          (going_first (codes "f") (codes "g"))
          (map route_of (filter (λ event. not (is_upload event)) queue)))
    × (map route_of r.successors
        ≡ map (following (codes "f") (codes "g") none) (map route_of (filter is_upload queue)))
retarget_folder_descendants_lem_example =
    retarget_folder_descendants_lem queue (codes "f") (codes "g") none false

abbrev settled_upload : Settlement
settled_upload = record {
  completed = codes "1" ∷ [];
  superseded = [];
  upload_receipts =
      record {
        event_id = codes "1";
        path = codes "a";
        status = accepted_put;
        epoch = some (codes "e");
        canonical_revision = some 5;
        mutation_id = none;
        mutation_seq = none;
        sha256 = none;
      }
      ∷ [];
}

reduce_upload_causal_receipts_lem_example :
    let events = (reduce_upload_causal_receipts queue settled_upload).0 in
    (map without_causality events ≡ map without_causality queue)
    × (any (waits_for_settled (settled_ids settled_upload)) events ≡ false)
reduce_upload_causal_receipts_lem_example = reduce_upload_causal_receipts_lem queue settled_upload

abbrev renamed_state : PostFullRenameState
renamed_state = record {
  canonical_epoch = codes "e";
  canonical_revision = 6;
  canonical_source = none;
  canonical_target = some laptop_note;
  local_target = some laptop_note;
  target_exists = true;
  has_pending_work = false;
}

abbrev renamed_event : DurableFileRenameEvent
renamed_event = rename_at_time (codes "3") (codes "a") note 3

no_colon : cut_last b':' (codes "7") ≡ none
unfolding cut_last nat_eq
no_colon = refl

abbrev folder_rename_of : Text → Text → Text → ℕ → DurableFolderRenameEvent
folder_rename_of id path target time = record {
  id = id;
  path = path;
  target_path = target;
  created_at = time;
  epoch = none;
  base_revision = none;
  mutation_id = none;
  mutation_seq = none;
  predecessor_folder_event_id = none;
}

abbrev folder_queue : List DurableFolderRenameEvent
folder_queue =
    folder_rename_of (codes "1") (codes "f") (codes "g") 1
    ∷ folder_rename_of (codes "2") (codes "f/h") (codes "f/i") 2
    ∷ []

select_folder_rename_parent-IsBestParent_example :
    IsBestParent folder_queue
      (codes "f/h/a")
      (select_folder_rename_parent folder_queue (codes "f/h/a")).parent
select_folder_rename_parent-IsBestParent_example =
    select_folder_rename_parent-IsBestParent folder_queue (codes "f/h/a")

reduce_rename_chain_lem_example :
    let existing = rename_at_time (codes "3") (codes "a") (codes "b") 3 ∷ [] in
    let incoming = rename_at_time (codes "5") (codes "b") (codes "c") 5 in
    let chain = reduce_rename_chain existing incoming [] in
    ((chain.disposition ≡ rebased) × Rebase [] existing chain.events incoming)
    ⊎ ((chain.disposition ≢ rebased)
        × (chain.events ≡ existing ++ incoming ∷ [])
        × (chain.disposition ≡ queued → find (leads_to (codes "b")) existing ≡ none))
unfolding file_rename_event
reduce_rename_chain_lem_example =
    reduce_rename_chain_lem [] (rename_at_time (codes "3") (codes "a") (codes "b") 3 ∷ [])
      (rename_at_time (codes "5") (codes "b") (codes "c") 5)
