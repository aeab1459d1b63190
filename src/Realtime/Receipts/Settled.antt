-- ===== src/Realtime/Receipts/Settled.antt =====
-- What settled uploads change in the queue.
use obsidian_yandex_disk_syn.Common.{
  ◌≡◌, refl, ap, ◌∙◌, inl, inr, Bool, false, none, List, [], ◌∷◌, map, arith, is_some, nat_eq,
  bool_eq, option_eq, list_eq, Option-cases, any,
}
use obsidian_yandex_disk_syn.Common.Text.{Text}
use obsidian_yandex_disk_syn.Common.Dict.{Dict, lookup}
use obsidian_yandex_disk_syn.Realtime.Events.{
  RealtimeFileEvent, WatcherQueueEvent, file_event, folder_delete, folder_rename, file_rename,
  UploadCausalReceipt,
}
use obsidian_yandex_disk_syn.Realtime.Receipts.{
  UploadReceiptEffect, Settlement, settled_predecessor, settle_rename, map_effects, advance_upload,
  advance_uploads, advance_all, advance_rename, settled_ids, reduce_upload_causal_receipts,
  receipts_by_id, files_by_id,
}

-- An event but for its causal context: the base revision, the epoch, and the upload before it.
abbrev pub without_causality : WatcherQueueEvent → WatcherQueueEvent
without_causality (file_event e) = file_event (record e { base_revision = none; epoch = none })
without_causality (file_rename e) =
    file_rename (record e { base_revision = none; epoch = none; predecessor_upload_id = none })
without_causality event = event

-- The event is a rename that waits for a settled upload.
abbrev pub waits_for_settled : List Text → WatcherQueueEvent → Bool
waits_for_settled settled (file_rename e) = is_some (settled_predecessor settled e)
waits_for_settled settled event = false

settle_rename-without :
    (settled : List Text) (receipts : Dict Text UploadCausalReceipt) (event : WatcherQueueEvent)
    → without_causality (settle_rename settled receipts event).0 ≡ without_causality event
unfolding settle_rename advance_rename
settle_rename-without settled receipts (file_rename e) = ground arith
settle_rename-without settled receipts event = refl

advance_upload-without :
    (settled : List Text) (receipt : UploadCausalReceipt) (predecessor : RealtimeFileEvent)
    (event : WatcherQueueEvent)
    → without_causality (advance_upload settled receipt predecessor event).0
      ≡ without_causality event
unfolding advance_upload
advance_upload-without settled receipt predecessor (file_event e) = ground arith
advance_upload-without settled receipt predecessor event = refl

map_effects-without :
    (f : WatcherQueueEvent → WatcherQueueEvent × List UploadReceiptEffect)
    (events : List WatcherQueueEvent)
    → ((event : WatcherQueueEvent) → without_causality (f event).0 ≡ without_causality event)
    → map without_causality (map_effects f events).0 ≡ map without_causality events
map_effects-without f [] h = refl
map_effects-without f (event ∷ events) h =
    ap (λ x. x ∷ map without_causality (map_effects f events).0) (h event)
    ∙ ap (◌∷◌ (without_causality event)) (map_effects-without f events h)

module _ (settled : List Text) (files : Dict Text RealtimeFileEvent) where
  advance_uploads-without :
      (receipt : UploadCausalReceipt) (events : List WatcherQueueEvent)
      → map without_causality (advance_uploads settled files receipt events).0
        ≡ map without_causality events
  unfolding advance_uploads
  advance_uploads-without receipt events = elim (Option-cases (lookup receipt.event_id files)) [
    | inl e ↦ ground arith
    | inr (predecessor, e) ↦
        let same =
          map_effects-without (advance_upload settled receipt predecessor) events
            (advance_upload-without settled receipt predecessor) in
        ground arith
  ]

  advance_all-without :
      (receipts : Dict Text UploadCausalReceipt) (events : List WatcherQueueEvent)
      → map without_causality (advance_all settled files receipts events).0
        ≡ map without_causality events
  unfolding advance_all
  advance_all-without [] events = refl
  advance_all-without ((_, receipt) ∷ receipts) events =
      advance_all-without receipts (advance_uploads settled files receipt events).0
      ∙ advance_uploads-without receipt events

  advance_upload-waits :
      (receipt : UploadCausalReceipt) (predecessor : RealtimeFileEvent) (event : WatcherQueueEvent)
      → waits_for_settled settled (advance_upload settled receipt predecessor event).0
        ≡ waits_for_settled settled event
  unfolding advance_upload
  advance_upload-waits receipt predecessor (file_event e) = ground arith
  advance_upload-waits receipt predecessor event = refl

  map_effects-waits :
      (receipt : UploadCausalReceipt) (predecessor : RealtimeFileEvent)
      (events : List WatcherQueueEvent)
      → any
          (waits_for_settled settled)
          (map_effects (advance_upload settled receipt predecessor) events).0
        ≡ any (waits_for_settled settled) events
  map_effects-waits receipt predecessor [] = refl
  map_effects-waits receipt predecessor (event ∷ events) = ground (
    arith,
    advance_upload-waits receipt predecessor event,
    map_effects-waits receipt predecessor events,
  )

  advance_uploads-waits :
      (receipt : UploadCausalReceipt) (events : List WatcherQueueEvent)
      → any (waits_for_settled settled) (advance_uploads settled files receipt events).0
        ≡ any (waits_for_settled settled) events
  unfolding advance_uploads
  advance_uploads-waits receipt events = elim (Option-cases (lookup receipt.event_id files)) [
    | inl e ↦ ground arith
    | inr (predecessor, e) ↦ ground (arith, map_effects-waits receipt predecessor events)
  ]

  advance_all-waits :
      (receipts : Dict Text UploadCausalReceipt) (events : List WatcherQueueEvent)
      → any (waits_for_settled settled) (advance_all settled files receipts events).0
        ≡ any (waits_for_settled settled) events
  unfolding advance_all
  advance_all-waits [] events = refl
  advance_all-waits ((_, receipt) ∷ receipts) events =
      advance_all-waits receipts (advance_uploads settled files receipt events).0
      ∙ advance_uploads-waits receipt events

settle_rename-waits :
    (settled : List Text) (receipts : Dict Text UploadCausalReceipt)
    (events : List WatcherQueueEvent)
    → any (waits_for_settled settled) (map_effects (settle_rename settled receipts) events).0
      ≡ false
unfolding settle_rename advance_rename
settle_rename-waits settled receipts [] = refl
settle_rename-waits settled receipts (file_rename e ∷ events) =
    ground (arith, settle_rename-waits settled receipts events)
settle_rename-waits settled receipts (file_event e ∷ events) =
    settle_rename-waits settled receipts events
settle_rename-waits settled receipts (folder_rename e ∷ events) =
    settle_rename-waits settled receipts events
settle_rename-waits settled receipts (folder_delete e ∷ events) =
    settle_rename-waits settled receipts events

-- After the receipts of a batch the queue holds the same events in the same order, changed at most
-- in the causal context of uploads, deletes and file renames, and no file rename waits any longer
-- for an upload that has settled.
pub reduce_upload_causal_receipts_lem :
    (existing : List WatcherQueueEvent) (result : Settlement)
    → let events = (reduce_upload_causal_receipts existing result).0 in
      (map without_causality events ≡ map without_causality existing)
      × (any (waits_for_settled (settled_ids result)) events ≡ false)
unfolding reduce_upload_causal_receipts
reduce_upload_causal_receipts_lem existing result =
    let receipts = receipts_by_id [] result.upload_receipts in
    let settled = settled_ids result in
    let renamed = (map_effects (settle_rename settled receipts) existing).0 in
    let files = files_by_id [] existing in
    (
      advance_all-without settled files receipts renamed
          ∙ map_effects-without (settle_rename settled receipts) existing
              (settle_rename-without settled receipts),
      advance_all-waits settled files receipts renamed
          ∙ settle_rename-waits settled receipts existing,
    )
