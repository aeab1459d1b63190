-- ===== src/Realtime/Partition/Descendants.antt =====
-- The events below a renamed folder: which are taken, and where they lead afterwards.
use obsidian_yandex_disk_syn.Common.{
  ◌≡◌, refl, sym, inl, inr, Bool, true, false, not, ◌&&◌, ◌||◌, Option, none, some, List, [], ◌∷◌,
  ◌++◌, map, arith, nat_eq, bool_eq, option_eq, list_eq, Option-cases, any, filter,
}
use obsidian_yandex_disk_syn.Common.Text.{
  Text, strip_prefix, starts_with, strip_prefix-append, append-strip_prefix, trim_slashes,
}
use obsidian_yandex_disk_syn.Realtime.Events.{
  WatcherQueueEvent, file_event, folder_delete, folder_rename, file_rename, file_rename_event,
  folder_rename_event,
}
use obsidian_yandex_disk_syn.Realtime.Rename.{map_path_through_folder_rename}
use obsidian_yandex_disk_syn.Realtime.Waiting.{WatcherQueueContext}
use obsidian_yandex_disk_syn.Realtime.Partition.{
  FolderPartition, partition_event, partition_from, partition_folder_rename_queue, is_descendant,
  leads_here, retarget, retarget_folder_descendants, as_predecessor, as_successor, is_upload,
}
use mathlib.Core.List.{append-nil, append_assoc}

-- A path that a folder rename takes elsewhere stands below the new folder, and the opposite rename
-- takes it back.
pub map_path_round_trip :
    (path from to mapped : Text)
    → map_path_through_folder_rename path from to ≡ some mapped
    → (starts_with mapped (trim_slashes to ++ b'/' ∷ []) ≡ true)
      × (map_path_through_folder_rename mapped to from ≡ some path)
unfolding map_path_through_folder_rename
map_path_round_trip path from to mapped h =
    elim (Option-cases (strip_prefix (trim_slashes from ++ b'/' ∷ []) path)) [
      | inl e ↦ ground arith
      | inr (suffix, e) ↦
          let split = append-strip_prefix (trim_slashes from ++ b'/' ∷ []) path suffix e in
          let whole = append_assoc (trim_slashes from) (b'/' ∷ []) suffix in
          let there = append_assoc (trim_slashes to) (b'/' ∷ []) suffix in
          let back = strip_prefix-append (trim_slashes to ++ b'/' ∷ []) suffix in ground arith
    ]

module _ (context : WatcherQueueContext) (old_path : Text) where
  abbrev stays_here : WatcherQueueEvent → Bool
  stays_here event = not (is_descendant context old_path event)

  partition_from_lem :
      (p : FolderPartition) (events : List WatcherQueueEvent)
      → let q = partition_from context old_path p events in
        (q.descendants ≡ p.descendants ++ filter (is_descendant context old_path) events)
        × (q.retained ≡ p.retained ++ filter stays_here events)
        × (q.coalesced_parent ≡ (p.coalesced_parent || any (leads_here context old_path) events))
  unfolding partition_from partition_event
  partition_from_lem p [] =
      (sym (append-nil p.descendants), sym (append-nil p.retained), ground arith)
  partition_from_lem p (event ∷ events) =
      let (d, r, c) = partition_from_lem (partition_event context old_path p event) events in
      ground (
        arith,
        append_assoc p.descendants (event ∷ []) (filter (is_descendant context old_path) events),
        append_assoc p.retained (event ∷ []) (filter stays_here events),
      )

  -- The partition of a queue at a renamed folder: the descendants are the events that were not
  -- submitted and start or lead below the folder, the others are retained, both in the order of the
  -- queue, and the parent is coalesced exactly when a folder rename that was not submitted leads to
  -- the folder.
  pub partition_folder_rename_queue_lem :
      (events : List WatcherQueueEvent)
      → let p = partition_folder_rename_queue events old_path context in
        (p.descendants ≡ filter (is_descendant context old_path) events)
        × (p.retained ≡ filter (λ event. not (is_descendant context old_path event)) events)
        × (p.coalesced_parent ≡ any (leads_here context old_path) events)
  unfolding partition_folder_rename_queue
  partition_folder_rename_queue_lem events =
      partition_from_lem (record { retained = []; descendants = []; coalesced_parent = false })
        events

-- Where a path is found once the folder stands at its new path.
unfoldable pub moved : (old_path target_path path : Text) → Text
moved old_path target_path path = elim (strip_prefix (trim_slashes old_path ++ b'/' ∷ []) path) [
  | none ↦ path
  | some suffix ↦ trim_slashes target_path ++ (b'/' ∷ suffix)
]

-- What a reader of the queue follows: the id, the path, the target of a rename, and the folder event
-- that comes before.
pub record Route : Type 0 where
  pub id : Text
  pub path : Text
  pub target : Option Text
  pub after : Option Text

unfoldable pub route_of : WatcherQueueEvent → Route
route_of (file_event e) = record { id = e.id; path = e.path; target = none; after = none }
route_of (folder_delete e) = record {
  id = e.id;
  path = e.path;
  target = none;
  after = e.predecessor_folder_event_id;
}
route_of (folder_rename e) = record {
  id = e.id;
  path = e.path;
  target = some e.target_path;
  after = e.predecessor_folder_event_id;
}
route_of (file_rename e) = record {
  id = e.id;
  path = e.path;
  target = some e.target_path;
  after = e.predecessor_folder_event_id;
}

abbrev moved_target : Text → Text → Option Text → Option Text
moved_target old_path target_path none = none
moved_target old_path target_path (some target) = some (moved old_path target_path target)

-- Before the rename of the folder an event still finds its path, and leads to the new place.
abbrev pub going_first : Text → Text → Route → Route
going_first old_path target_path r = record r {
  target = moved_target old_path target_path r.target;
}

-- After it, the path is moved as well, and a rename waits for the folder's.
abbrev pub following : Text → Text → Option Text → Route → Route
following old_path target_path parent_id r = record r {
  path = moved old_path target_path r.path;
  target = moved_target old_path target_path r.target;
  after = elim r.target [ none ↦ r.after | some _ ↦ parent_id ];
}

retarget-eq-moved :
    (old_path target_path path : Text)
    → retarget old_path target_path path ≡ moved old_path target_path path
unfolding retarget moved map_path_through_folder_rename
retarget-eq-moved old_path target_path path =
    elim (Option-cases (strip_prefix (trim_slashes old_path ++ b'/' ∷ []) path)) [
      | inl e ↦ ground arith
      | inr (suffix, e) ↦ ground (arith, append_assoc (trim_slashes target_path) (b'/' ∷ []) suffix)
    ]

as_predecessor-route :
    (old_path target_path : Text) (event : WatcherQueueEvent)
    → route_of (as_predecessor old_path target_path event)
      ≡ going_first old_path target_path (route_of event)
unfolding as_predecessor route_of
as_predecessor-route old_path target_path (file_event e) = refl
as_predecessor-route old_path target_path (folder_delete e) = refl
as_predecessor-route old_path target_path (folder_rename e) =
    rw (← retarget-eq-moved old_path target_path e.target_path) refl
as_predecessor-route old_path target_path (file_rename e) =
    rw (← retarget-eq-moved old_path target_path e.target_path) refl

as_successor-route :
    (old_path target_path : Text) (parent_id : Option Text) (event : WatcherQueueEvent)
    → route_of (as_successor old_path target_path parent_id event)
      ≡ following old_path target_path parent_id (route_of event)
unfolding as_successor route_of
as_successor-route old_path target_path parent_id (file_event e) =
    rw (← retarget-eq-moved old_path target_path e.path) refl
as_successor-route old_path target_path parent_id (folder_delete e) =
    rw (← retarget-eq-moved old_path target_path e.path) refl
as_successor-route old_path target_path parent_id (folder_rename e) =
    rw
      (
        ← retarget-eq-moved old_path target_path e.path,
        ← retarget-eq-moved old_path target_path e.target_path,
      )
      refl
as_successor-route old_path target_path parent_id (file_rename e) =
    rw
      (
        ← retarget-eq-moved old_path target_path e.path,
        ← retarget-eq-moved old_path target_path e.target_path,
      )
      refl

-- Retargeting splits the descendants of a renamed folder, each list in the order of the queue and
-- with the ids kept: the deletes and renames go before the folder rename, unless it was coalesced
-- into one that is queued, and all others follow it. What goes before keeps its path and leads to
-- the place of its target below the new folder; what follows has its path and target there, and a
-- rename among it waits for the given parent.
pub retarget_folder_descendants_lem :
    (events : List WatcherQueueEvent) (old_path target_path : Text) (parent_id : Option Text)
    (coalesced : Bool)
    → let r = retarget_folder_descendants events old_path target_path parent_id coalesced in
      (map route_of r.predecessors
        ≡ map
            (going_first old_path target_path)
            (map route_of (filter (λ event. not coalesced && not (is_upload event)) events)))
      × (map route_of r.successors
          ≡ map
              (following old_path target_path parent_id)
              (map route_of (filter (λ event. coalesced || is_upload event) events)))
unfolding retarget_folder_descendants
retarget_folder_descendants_lem [] old_path target_path parent_id coalesced = (refl, refl)
retarget_folder_descendants_lem (event ∷ events) old_path target_path parent_id coalesced =
    let (p, s) = retarget_folder_descendants_lem events old_path target_path parent_id coalesced in
    ground (
      arith,
      as_predecessor-route old_path target_path event,
      as_successor-route old_path target_path parent_id event,
    )
