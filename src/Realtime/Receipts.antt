-- ===== src/Realtime/Receipts.antt =====
-- src/sync/realtime/queue-rules.ts: `reduceUploadCausalReceipts`, how settled uploads move their
-- causal successors on.
pub mod Settled
use obsidian_yandex_disk_syn.Common.{
  ℕ, zero, suc, ◌+◌, ◌-◌, ◌≤◌, ◌<◌, ◌≡◌, refl, sym, ap, ◌∙◌, subst, ◌≢◌, ◌↔◌, ◌⊎◌, inl, inr, Bool,
  true, false, not, ◌&&◌, ◌||◌, Option, none, some, List, [], ◌∷◌, ◌++◌, map, arith, ltb, leb,
  if◌then◌else◌, get_or, truthy, truthy_list, is_some, ◌==◌, ◌!=◌, nat_eq, bool_eq, option_eq,
  list_eq, Bool-cases, Option-cases, length, length-append, any, all, filter, find, last, All, Some,
  has, eq_of_test, test_self, Eq, max, min,
}
use obsidian_yandex_disk_syn.Common.Text.{
  Text, codes, strip_prefix, starts_with, strip_prefix-append, append-strip_prefix, trim_slashes,
  split_slash, join_slash,
}
use obsidian_yandex_disk_syn.Common.Dict.{
  Dict, lookup, insert, erase, NodupKeys, lookup-insert, lookup-insert_self, lookup-erase,
}
use obsidian_yandex_disk_syn.Files.Fingerprint.{non_empty}
use obsidian_yandex_disk_syn.Realtime.Events.{
  FileAction, upload, delete, RealtimeFileEvent, DurableFileRenameEvent, WatcherQueueEvent,
  file_event, folder_delete, folder_rename, file_rename, id_of, path_of, UploadCausalReceipt,
  ReceiptStatus, pending_put, accepted_put, rejected_put, confirmed_unchanged,
}

pub data UploadReceiptEffect : Type 0 where
  rename_effect : DurableFileRenameEvent → Option UploadCausalReceipt → UploadReceiptEffect
  upload_effect : RealtimeFileEvent → UploadCausalReceipt → UploadReceiptEffect

pub record Settlement : Type 0 where
  pub completed : List Text
  pub superseded : List Text
  pub upload_receipts : List UploadCausalReceipt

-- The upload was accepted, or was already there.
abbrev pub is_accepted : ReceiptStatus → Bool
is_accepted accepted_put = true
is_accepted confirmed_unchanged = true
is_accepted _ = false

-- `new Map(receipts.map((receipt) => [receipt.eventId, receipt]))`
unfoldable pub receipts_by_id :
    Dict Text UploadCausalReceipt → List UploadCausalReceipt → Dict Text UploadCausalReceipt
receipts_by_id by_id [] = by_id
receipts_by_id by_id (receipt ∷ receipts) =
    receipts_by_id (insert receipt.event_id receipt by_id) receipts

unfoldable pub files_by_id :
    Dict Text RealtimeFileEvent → List WatcherQueueEvent → Dict Text RealtimeFileEvent
files_by_id by_id [] = by_id
files_by_id by_id (file_event e ∷ events) = files_by_id (insert e.id e by_id) events
files_by_id by_id (_ ∷ events) = files_by_id by_id events

-- The settled upload that a rename waits for.
abbrev pub settled_predecessor : List Text → DurableFileRenameEvent → Option Text
settled_predecessor settled e = elim (non_empty e.predecessor_upload_id) [
  | none ↦ none
  | some id ↦ if has settled id then some id else none
]

-- The rename behind its settled upload; an accepted upload gives it its revision and epoch.
unfoldable pub advance_rename :
    DurableFileRenameEvent → Option UploadCausalReceipt → DurableFileRenameEvent
advance_rename e none = record e { predecessor_upload_id = none }
advance_rename e (some receipt) =
    if is_accepted receipt.status
    then record e {
      base_revision = receipt.canonical_revision;
      epoch = receipt.epoch;
      predecessor_upload_id = none;
    }
    else record e { predecessor_upload_id = none }

-- One round of the first `map`, with its effects.
unfoldable pub settle_rename :
    List Text
    → Dict Text UploadCausalReceipt
    → WatcherQueueEvent
    → WatcherQueueEvent × List UploadReceiptEffect
unfolding advance_rename
settle_rename settled receipts (file_rename e) = elim (settled_predecessor settled e) [
  | none ↦ (file_rename e, [])
  | some id ↦
      let next = advance_rename e (lookup id receipts) in
      (file_rename next, rename_effect next (lookup id receipts) ∷ [])
]
settle_rename settled receipts event = (event, [])

-- A round of `map` that leaves effects, over the whole queue.
abbrev pub map_effects :
    (WatcherQueueEvent → WatcherQueueEvent × List UploadReceiptEffect)
    → List WatcherQueueEvent
    → List WatcherQueueEvent × List UploadReceiptEffect
map_effects f [] = ([], [])
map_effects f (event ∷ events) =
    let rest = map_effects f events in ((f event).0 ∷ rest.0, (f event).1 ++ rest.1)

-- `candidate.epoch !== null && candidate.epoch !== receipt.epoch`
abbrev of_other_epoch : Option Text → Option Text → Bool
of_other_epoch none epoch = false
of_other_epoch (some mine) epoch = some mine != epoch

-- A later upload of the same path that has not been settled.
unfoldable pub follows_receipt :
    List Text → UploadCausalReceipt → RealtimeFileEvent → RealtimeFileEvent → Bool
follows_receipt settled receipt predecessor candidate =
    candidate.id != receipt.event_id
    && candidate.path == receipt.path
    && ltb predecessor.created_at candidate.created_at
    && not (has settled candidate.id)
    && not (of_other_epoch candidate.epoch receipt.epoch)

unfoldable pub advance_upload :
    List Text
    → UploadCausalReceipt
    → RealtimeFileEvent
    → WatcherQueueEvent
    → WatcherQueueEvent × List UploadReceiptEffect
unfolding follows_receipt
advance_upload settled receipt predecessor (file_event e) = elim e.action [
  | delete ↦ (file_event e, [])
  | upload ↦
      if follows_receipt settled receipt predecessor e
      then (let next = record e {
        base_revision = receipt.canonical_revision;
        epoch = receipt.epoch;
      } in
          (file_event next, upload_effect next receipt ∷ []))
      else (file_event e, [])
]
advance_upload settled receipt predecessor event = (event, [])

-- One round of the loop over the receipts.
unfoldable pub advance_uploads :
    List Text
    → Dict Text RealtimeFileEvent
    → UploadCausalReceipt
    → List WatcherQueueEvent
    → List WatcherQueueEvent × List UploadReceiptEffect
unfolding advance_upload
advance_uploads settled files receipt events =
    if is_accepted receipt.status && is_some receipt.canonical_revision
    then elim (lookup receipt.event_id files) [
      | none ↦ (events, [])
      | some predecessor ↦ map_effects (advance_upload settled receipt predecessor) events
    ]
    else (events, [])

unfoldable pub advance_all :
    List Text
    → Dict Text RealtimeFileEvent
    → Dict Text UploadCausalReceipt
    → List WatcherQueueEvent
    → List WatcherQueueEvent × List UploadReceiptEffect
unfolding advance_uploads
advance_all settled files [] events = (events, [])
advance_all settled files ((_, receipt) ∷ receipts) events =
    let step = advance_uploads settled files receipt events in
    let rest = advance_all settled files receipts step.0 in (rest.0, step.1 ++ rest.1)

-- `settledIds`
abbrev pub settled_ids : Settlement → List Text
settled_ids result = result.completed ++ result.superseded

-- `reduceUploadCausalReceipts`
unfoldable pub reduce_upload_causal_receipts :
    List WatcherQueueEvent → Settlement → List WatcherQueueEvent × List UploadReceiptEffect
unfolding receipts_by_id files_by_id settle_rename advance_all
reduce_upload_causal_receipts existing result =
    let receipts = receipts_by_id [] result.upload_receipts in
    let settled = settled_ids result in
    let renamed = map_effects (settle_rename settled receipts) existing in
    let advanced = advance_all settled (files_by_id [] existing) receipts renamed.0 in
    (advanced.0, renamed.1 ++ advanced.1)
