-- ===== src/Realtime/Queue/Kept.antt =====
-- How each branch of `reduceWatcherQueue` treats the submitted events.
use obsidian_yandex_disk_syn.Common.{
  ◌≡◌, refl, ap, ◌∙◌, inl, inr, false, Option, none, some, List, [], ◌∷◌, arith, ◌!=◌, nat_eq,
  bool_eq, option_eq, list_eq, Option-cases, filter, find,
}
use obsidian_yandex_disk_syn.Common.Text.{Text}
use obsidian_yandex_disk_syn.Realtime.Events.{
  FileAction, upload, delete, RealtimeFileEvent, DurableFileRenameEvent, DurableFolderRenameEvent,
  DurableFolderDeleteEvent, WatcherQueueEvent, file_event, folder_delete, folder_rename,
  file_rename, id_of, RenameEvent, file_rename_event, folder_rename_event,
}
use obsidian_yandex_disk_syn.Realtime.Rename.{
  ChildRename, absorbed_child, unrelated_child, successor_child, reduce_folder_child_rename,
  rebased, reduce_rename_chain, leads_to, FolderRenameParentSelection, select_folder_rename_parent,
}
use obsidian_yandex_disk_syn.Realtime.Queue.{
  rebase_queue, reduce_folder_rename, chain_file_rename, reduce_file_rename, find_rename_to,
  reduce_file_event, reduce_folder_delete, reduce_watcher_queue, settle_child, settle_under,
  settle_chain, with_children, run_folder_after, run_file_after, mark_ambiguous,
  replace_predecessor, in_place_of, outlives, follow_by_cases,
}
use obsidian_yandex_disk_syn.Realtime.Waiting.{
  WatcherQueueContext, WatcherQueueReduction, is_submitted_id, initial, enqueue, folder_renames,
  file_renames,
}
use obsidian_yandex_disk_syn.Realtime.Queue.Submitted.{
  submitted, submitted-filter, IsFresh, submitted-enqueue, submitted-rebase_children, RenamesApart,
  Apart, folder_renames-Apart, file_renames-Apart, find-Apart, rebase_children-RenamesApart,
  submitted-rebase_queue,
}

module _ (context : WatcherQueueContext) where
  module _ {T : Type 0} ⦃rename : RenameEvent T⦄ where
    rebased_id-fresh :
        (renames : List T) (event : T) (id : Text)
        → Apart context rename.rename_id renames
        → (reduce_rename_chain renames event context.submitted_watcher_ids).predecessor_id ≡ some id
        → (reduce_rename_chain renames event context.submitted_watcher_ids).disposition ≡ rebased
        → is_submitted_id context id ≡ false
    unfolding reduce_rename_chain
    rebased_id-fresh renames event id apart e d =
        elim (Option-cases (find (leads_to (rename.source event)) renames)) [
          | inl f ↦ ground arith
          | inr (found, f) ↦
              let a = find-Apart context rename.rename_id _ renames found apart f in ground arith
        ]

  submitted-settle_chain :
      {T : Type 0} ⦃rename : RenameEvent T⦄ (wrap : T → WatcherQueueEvent)
      (r : WatcherQueueReduction) (on_running : Text → WatcherQueueReduction) (renames : List T)
      (event : T)
      → ((event : T) → id_of (wrap event) ≡ rename.rename_id event)
      → IsFresh context r.event
      → ((id : Text) → IsFresh context (on_running id).event)
      → ((id : Text) → (on_running id).events ≡ r.events)
      → Apart context rename.rename_id renames
      → submitted context
          (settle_chain wrap context r on_running
            (reduce_rename_chain renames event context.submitted_watcher_ids)).events
        ≡ submitted context r.events
  unfolding settle_chain
  submitted-settle_chain wrap r on_running renames event same fresh freshly kept apart =
      let chain = reduce_rename_chain renames event context.submitted_watcher_ids in
      follow_by_cases
        (λ (next : WatcherQueueReduction).
          submitted context next.events ≡ submitted context r.events)
        chain.predecessor_id chain.disposition (enqueue context r)
        (λ id. enqueue context (on_running id)) (rebase_queue wrap r chain)
        (submitted-enqueue context r fresh)
        (λ id.
          submitted-enqueue context (on_running id) (freshly id) ∙ ap (submitted context) (kept id))
        (λ id e d.
          submitted-rebase_queue context wrap r chain id same
            (rebased_id-fresh renames event id apart e d))

  submitted-folder_rename :
      (existing : List WatcherQueueEvent) (event : DurableFolderRenameEvent)
      → IsFresh context (folder_rename event)
      → RenamesApart context existing
      → submitted context (reduce_folder_rename existing event context).events
        ≡ submitted context existing
  unfolding reduce_folder_rename folder_rename_event with_children initial
  submitted-folder_rename existing event fresh apart =
      let r = with_children context event existing in
      submitted-settle_chain folder_rename r (run_folder_after r event) (folder_renames r.events)
        event (λ event. refl) fresh (λ id. fresh) (λ id. refl)
        (folder_renames-Apart context r.events
          (rebase_children-RenamesApart context event existing apart))
      ∙ submitted-rebase_children context event existing

  submitted-chain_file_rename :
      (r : WatcherQueueReduction) (event : DurableFileRenameEvent)
      → IsFresh context (file_rename event)
      → RenamesApart context r.events
      → submitted context (chain_file_rename r event context).events ≡ submitted context r.events
  unfolding chain_file_rename file_rename_event
  submitted-chain_file_rename before event fresh apart =
      let r = record before { event = file_rename event } in
      submitted-settle_chain file_rename r (run_file_after r) (file_renames r.events) event
        (λ event. refl) fresh (λ id. fresh) (λ id. refl) (file_renames-Apart context r.events apart)

  submitted-settle_child :
      (child : ChildRename) (r : WatcherQueueReduction) (event : DurableFileRenameEvent)
      → IsFresh context (file_rename event)
      → ((next : DurableFileRenameEvent) → child ≡ successor_child next → next.id ≡ event.id)
      → RenamesApart context r.events
      → submitted context (settle_child child r event context).events ≡ submitted context r.events
  unfolding settle_child
  submitted-settle_child absorbed_child r event fresh same apart = refl
  submitted-settle_child unrelated_child r event fresh same apart =
      submitted-chain_file_rename r event fresh apart
  submitted-settle_child (successor_child next) r event fresh same apart =
      submitted-chain_file_rename r next (ap (is_submitted_id context) (same next refl) ∙ fresh)
        apart

  successor-id :
      (parent : DurableFolderRenameEvent) (event next : DurableFileRenameEvent)
      → reduce_folder_child_rename parent event ≡ successor_child next
      → next.id ≡ event.id
  unfolding reduce_folder_child_rename
  successor-id parent event next h = ground arith

  submitted-settle_under :
      (parent : Option DurableFolderRenameEvent) (r : WatcherQueueReduction)
      (event : DurableFileRenameEvent)
      → IsFresh context (file_rename event)
      → RenamesApart context r.events
      → submitted context (settle_under parent r event context).events ≡ submitted context r.events
  unfolding settle_under
  submitted-settle_under none r event fresh apart = submitted-chain_file_rename r event fresh apart
  submitted-settle_under (some parent) r event fresh apart =
      submitted-settle_child (reduce_folder_child_rename parent event) r event fresh
        (successor-id parent event) apart

  mark_ambiguous-id :
      (selection : FolderRenameParentSelection) (event : DurableFileRenameEvent)
      → (mark_ambiguous selection event).id ≡ event.id
  mark_ambiguous-id selection event = ground arith

  submitted-file_rename :
      (existing : List WatcherQueueEvent) (event : DurableFileRenameEvent)
      → IsFresh context (file_rename event)
      → RenamesApart context existing
      → submitted context (reduce_file_rename existing event context).events
        ≡ submitted context existing
  unfolding reduce_file_rename initial
  submitted-file_rename existing event fresh apart =
      let selection = select_folder_rename_parent (folder_renames existing) event.path in
      submitted-settle_under selection.parent _ (mark_ambiguous selection event)
        (ap (is_submitted_id context) (mark_ambiguous-id selection event) ∙ fresh) apart

  find_rename_to-IsFresh :
      (path : Text) (events : List WatcherQueueEvent) (found : DurableFileRenameEvent)
      → find_rename_to context path events ≡ some found
      → IsFresh context (file_rename found)
  unfolding find_rename_to
  find_rename_to-IsFresh path [] found e = cc
  find_rename_to-IsFresh path (file_rename candidate ∷ events) found e =
      ground (arith, find_rename_to-IsFresh path events found)
  find_rename_to-IsFresh path (file_event candidate ∷ events) found e =
      find_rename_to-IsFresh path events found e
  find_rename_to-IsFresh path (folder_rename candidate ∷ events) found e =
      find_rename_to-IsFresh path events found e
  find_rename_to-IsFresh path (folder_delete candidate ∷ events) found e =
      find_rename_to-IsFresh path events found e

  submitted-replace_predecessor :
      (action : FileAction) (existing : List WatcherQueueEvent) (event : RealtimeFileEvent)
      (predecessor : DurableFileRenameEvent)
      → IsFresh context (file_event event)
      → IsFresh context (file_rename predecessor)
      → submitted context (replace_predecessor action existing event predecessor context).events
        ≡ submitted context existing
  unfolding replace_predecessor in_place_of initial
  submitted-replace_predecessor upload existing event predecessor fresh gone = refl
  submitted-replace_predecessor delete existing event predecessor fresh gone =
      submitted-enqueue context (in_place_of predecessor existing event) fresh
      ∙ submitted-filter context (λ candidate. id_of candidate != predecessor.id) existing
          (λ candidate h. ground arith)

  submitted-file_event :
      (existing : List WatcherQueueEvent) (event : RealtimeFileEvent)
      → IsFresh context (file_event event)
      → submitted context (reduce_file_event existing event context).events
        ≡ submitted context existing
  unfolding reduce_file_event initial
  submitted-file_event existing event fresh =
      elim (Option-cases (find_rename_to context event.path existing)) [
        | inl e ↦
            rw (reduce_file_event, e)
              (submitted-enqueue context (initial existing (file_event event)) fresh)
        | inr (found, e) ↦
            rw (reduce_file_event, e)
              (submitted-replace_predecessor event.action existing event found fresh
                (find_rename_to-IsFresh event.path existing found e))
      ]

  submitted-folder_delete :
      (existing : List WatcherQueueEvent) (event : DurableFolderDeleteEvent)
      → IsFresh context (folder_delete event)
      → submitted context (reduce_folder_delete existing event context).events
        ≡ submitted context existing
  unfolding reduce_folder_delete initial
  submitted-folder_delete existing event fresh =
      submitted-enqueue context
        (record (initial existing (folder_delete event)) {
          events = filter (outlives context event.path) existing;
        })
        fresh
      ∙ submitted-filter context (outlives context event.path) existing
          (λ candidate h. ground arith)

  -- A reduction leaves the submitted events of the queue alone: they are all still there, unchanged
  -- and in their order, and no other event of the answer is a submitted one. The incoming event is
  -- not submitted, and no rename in the queue has the identity of a submitted upload or delete.
  pub submitted-reduce_watcher_queue :
      (existing : List WatcherQueueEvent) (incoming : WatcherQueueEvent)
      → IsFresh context incoming
      → RenamesApart context existing
      → submitted context (reduce_watcher_queue existing incoming context).events
        ≡ submitted context existing
  unfolding reduce_watcher_queue
  submitted-reduce_watcher_queue existing (file_event e) fresh apart =
      submitted-file_event existing e fresh
  submitted-reduce_watcher_queue existing (folder_delete e) fresh apart =
      submitted-folder_delete existing e fresh
  submitted-reduce_watcher_queue existing (folder_rename e) fresh apart =
      submitted-folder_rename existing e fresh apart
  submitted-reduce_watcher_queue existing (file_rename e) fresh apart =
      submitted-file_rename existing e fresh apart
