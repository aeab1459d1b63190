-- ===== src/Realtime/Queue/Uniqueness.antt =====
-- Each branch of `reduceWatcherQueue` keeps at most one waiting upload or delete per path.
use obsidian_yandex_disk_syn.Common.{
  ◌≡◌, refl, sym, subst, inl, inr, false, Option, none, some, List, ◌!=◌, nat_eq, bool_eq,
  option_eq, list_eq, Option-cases, filter,
}
use obsidian_yandex_disk_syn.Common.Text.{Text}
use obsidian_yandex_disk_syn.Realtime.Events.{
  FileAction, upload, delete, RealtimeFileEvent, DurableFileRenameEvent, DurableFolderRenameEvent,
  DurableFolderDeleteEvent, WatcherQueueEvent, file_event, folder_delete, folder_rename,
  file_rename, id_of, RenameEvent, file_rename_event, folder_rename_event,
}
use obsidian_yandex_disk_syn.Realtime.Rename.{
  ChildRename, absorbed_child, unrelated_child, successor_child, reduce_folder_child_rename,
  RenameChain, reduce_rename_chain, select_folder_rename_parent,
}
use obsidian_yandex_disk_syn.Realtime.Queue.{
  rebase_queue, reduce_folder_rename, chain_file_rename, reduce_file_rename, find_rename_to,
  reduce_file_event, reduce_folder_delete, reduce_watcher_queue, settle_child, settle_under,
  settle_chain, with_children, run_folder_after, run_file_after, mark_ambiguous,
  replace_predecessor, in_place_of, outlives, find_by_id, follow_by_cases,
}
use obsidian_yandex_disk_syn.Realtime.Waiting.{
  WatcherQueueContext, WatcherQueueReduction, initial, enqueue, folder_renames, file_renames,
}
use obsidian_yandex_disk_syn.Realtime.Queue.Unique.{
  UniqueFiles, filter-UniqueFiles, enqueue-UniqueFiles, is_file, replace_rename-UniqueFiles,
  rebase_children-UniqueFiles,
}

module _ (context : WatcherQueueContext) where
  rebase_queue-UniqueFiles :
      {T : Type 0} ⦃rename : RenameEvent T⦄ (wrap : T → WatcherQueueEvent)
      (r : WatcherQueueReduction) (chain : RenameChain T) (id : Text)
      → ((event : T) → is_file context (wrap event) ≡ false)
      → UniqueFiles context r.events
      → UniqueFiles context (rebase_queue wrap r chain id).events
  unfolding rebase_queue
  rebase_queue-UniqueFiles wrap r chain id rename h =
      elim (Option-cases (find_by_id wrap id chain.events)) [
        | inl e ↦ rw (rebase_queue, e) h
        | inr (found, e) ↦
            rw (rebase_queue, e)
              (replace_rename-UniqueFiles context (wrap found) r.events (rename found) h)
      ]

  settle_chain-UniqueFiles :
      {T : Type 0} ⦃rename : RenameEvent T⦄ (wrap : T → WatcherQueueEvent)
      (r : WatcherQueueReduction) (on_running : Text → WatcherQueueReduction)
      (chain : RenameChain T)
      → ((event : T) → is_file context (wrap event) ≡ false)
      → ((id : Text) → (on_running id).events ≡ r.events)
      → UniqueFiles context r.events
      → UniqueFiles context (settle_chain wrap context r on_running chain).events
  unfolding settle_chain
  settle_chain-UniqueFiles wrap r on_running chain rename kept h =
      follow_by_cases (λ (next : WatcherQueueReduction). UniqueFiles context next.events)
        chain.predecessor_id chain.disposition (enqueue context r)
        (λ id. enqueue context (on_running id)) (rebase_queue wrap r chain)
        (enqueue-UniqueFiles context r h)
        (λ id.
          enqueue-UniqueFiles context (on_running id)
            (subst (UniqueFiles context) (sym (kept id)) h))
        (λ id e d. rebase_queue-UniqueFiles wrap r chain id rename h)

  folder_rename-UniqueFiles :
      (existing : List WatcherQueueEvent) (event : DurableFolderRenameEvent)
      → UniqueFiles context existing
      → UniqueFiles context (reduce_folder_rename existing event context).events
  unfolding reduce_folder_rename with_children
  folder_rename-UniqueFiles existing event h =
      let r = with_children context event existing in
      settle_chain-UniqueFiles folder_rename r (run_folder_after r event)
        (reduce_rename_chain (folder_renames r.events) event context.submitted_watcher_ids)
        (λ event. refl) (λ id. refl) (rebase_children-UniqueFiles context event existing h)

  chain_file_rename-UniqueFiles :
      (r : WatcherQueueReduction) (event : DurableFileRenameEvent)
      → UniqueFiles context r.events
      → UniqueFiles context (chain_file_rename r event context).events
  unfolding chain_file_rename
  chain_file_rename-UniqueFiles before event h =
      let r = record before { event = file_rename event } in
      settle_chain-UniqueFiles file_rename r (run_file_after r)
        (reduce_rename_chain (file_renames r.events) event context.submitted_watcher_ids)
        (λ event. refl) (λ id. refl) h

  settle_child-UniqueFiles :
      (child : ChildRename) (r : WatcherQueueReduction) (event : DurableFileRenameEvent)
      → UniqueFiles context r.events
      → UniqueFiles context (settle_child child r event context).events
  unfolding settle_child
  settle_child-UniqueFiles absorbed_child r event h = h
  settle_child-UniqueFiles unrelated_child r event h = chain_file_rename-UniqueFiles r event h
  settle_child-UniqueFiles (successor_child next) r event h = chain_file_rename-UniqueFiles r next h

  settle_under-UniqueFiles :
      (parent : Option DurableFolderRenameEvent) (r : WatcherQueueReduction)
      (event : DurableFileRenameEvent)
      → UniqueFiles context r.events
      → UniqueFiles context (settle_under parent r event context).events
  unfolding settle_under
  settle_under-UniqueFiles none r event h = chain_file_rename-UniqueFiles r event h
  settle_under-UniqueFiles (some parent) r event h =
      settle_child-UniqueFiles (reduce_folder_child_rename parent event) r event h

  file_rename-UniqueFiles :
      (existing : List WatcherQueueEvent) (event : DurableFileRenameEvent)
      → UniqueFiles context existing
      → UniqueFiles context (reduce_file_rename existing event context).events
  unfolding reduce_file_rename initial
  file_rename-UniqueFiles existing event h =
      let selection = select_folder_rename_parent (folder_renames existing) event.path in
      settle_under-UniqueFiles selection.parent _ (mark_ambiguous selection event) h

  replace_predecessor-UniqueFiles :
      (action : FileAction) (existing : List WatcherQueueEvent) (event : RealtimeFileEvent)
      (predecessor : DurableFileRenameEvent)
      → UniqueFiles context existing
      → UniqueFiles context (replace_predecessor action existing event predecessor context).events
  unfolding replace_predecessor in_place_of initial
  replace_predecessor-UniqueFiles upload existing event predecessor h = h
  replace_predecessor-UniqueFiles delete existing event predecessor h =
      enqueue-UniqueFiles context (in_place_of predecessor existing event)
        (filter-UniqueFiles context (λ candidate. id_of candidate != predecessor.id) existing h)

  file_event-UniqueFiles :
      (existing : List WatcherQueueEvent) (event : RealtimeFileEvent)
      → UniqueFiles context existing
      → UniqueFiles context (reduce_file_event existing event context).events
  unfolding reduce_file_event initial
  file_event-UniqueFiles existing event h =
      elim (Option-cases (find_rename_to context event.path existing)) [
        | inl e ↦
            rw (reduce_file_event, e)
              (enqueue-UniqueFiles context (initial existing (file_event event)) h)
        | inr (found, e) ↦
            rw (reduce_file_event, e)
              (replace_predecessor-UniqueFiles event.action existing event found h)
      ]

  folder_delete-UniqueFiles :
      (existing : List WatcherQueueEvent) (event : DurableFolderDeleteEvent)
      → UniqueFiles context existing
      → UniqueFiles context (reduce_folder_delete existing event context).events
  unfolding reduce_folder_delete initial
  folder_delete-UniqueFiles existing event h =
      enqueue-UniqueFiles context
        (record (initial existing (folder_delete event)) {
          events = filter (outlives context event.path) existing;
        })
        (filter-UniqueFiles context (outlives context event.path) existing h)

  -- A queue with at most one upload or delete per path, among those that were not submitted, is
  -- still such a queue after a reduction by any event.
  pub reduce_watcher_queue-UniqueFiles :
      (existing : List WatcherQueueEvent) (incoming : WatcherQueueEvent)
      → UniqueFiles context existing
      → UniqueFiles context (reduce_watcher_queue existing incoming context).events
  unfolding reduce_watcher_queue
  reduce_watcher_queue-UniqueFiles existing (file_event e) h = file_event-UniqueFiles existing e h
  reduce_watcher_queue-UniqueFiles existing (folder_delete e) h =
      folder_delete-UniqueFiles existing e h
  reduce_watcher_queue-UniqueFiles existing (folder_rename e) h =
      folder_rename-UniqueFiles existing e h
  reduce_watcher_queue-UniqueFiles existing (file_rename e) h = file_rename-UniqueFiles existing e h
