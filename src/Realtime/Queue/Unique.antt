-- ===== src/Realtime/Queue/Unique.antt =====
-- The queue holds at most one upload or delete per path that was not submitted.
use obsidian_yandex_disk_syn.Common.{
  ◌≡◌, refl, ◌∙◌, inl, inr, Bool, true, false, not, ◌&&◌, ◌||◌, List, [], ◌∷◌, ◌++◌, arith, ◌==◌,
  nat_eq, bool_eq, option_eq, list_eq, Bool-cases, any, filter,
}
use obsidian_yandex_disk_syn.Common.Text.{Text}
use obsidian_yandex_disk_syn.Realtime.Events.{
  RealtimeFileEvent, DurableFileRenameEvent, DurableFolderRenameEvent, WatcherQueueEvent,
  file_event, folder_delete, folder_rename, file_rename, path_of, file_rename_event,
  folder_rename_event,
}
use obsidian_yandex_disk_syn.Realtime.Rename.{reduce_folder_child_rename}
use obsidian_yandex_disk_syn.Realtime.Queue.{rebase_child, rebase_children}
use obsidian_yandex_disk_syn.Realtime.Waiting.{
  WatcherQueueContext, WatcherQueueReduction, is_submitted, stays, should_retain_queued_file_event,
  enqueue, replace_rename,
}

module _ (context : WatcherQueueContext) where
  abbrev pub is_file : WatcherQueueEvent → Bool
  is_file (file_event e) = true
  is_file event = false

  -- An upload or a delete that can still be replaced.
  abbrev waits : WatcherQueueEvent → Bool
  waits event = is_file event && not (is_submitted context event)

  abbrev waits_at : Text → WatcherQueueEvent → Bool
  waits_at path event = waits event && path_of event == path

  -- No two of them are at one path.
  abbrev pub UniqueFiles : List WatcherQueueEvent → Type 0
  UniqueFiles [] = Unit
  UniqueFiles (event ∷ events) =
      (waits event ≡ true → any (waits_at (path_of event)) events ≡ false) × UniqueFiles events

  any-filter :
      (path : Text) (keep : WatcherQueueEvent → Bool) (events : List WatcherQueueEvent)
      → any (waits_at path) events ≡ false
      → any (waits_at path) (filter keep events) ≡ false
  any-filter path keep [] h = refl
  any-filter path keep (event ∷ events) h = ground (arith, any-filter path keep events)

  pub filter-UniqueFiles :
      (keep : WatcherQueueEvent → Bool) (events : List WatcherQueueEvent)
      → UniqueFiles events
      → UniqueFiles (filter keep events)
  filter-UniqueFiles keep [] h = tt
  filter-UniqueFiles keep (event ∷ events) (h, hs) = elim (Bool-cases (keep event)) [
    | inl e ↦
        rw e (λ w. any-filter (path_of event) keep events (h w), filter-UniqueFiles keep events hs)
    | inr e ↦ rw e (filter-UniqueFiles keep events hs)
  ]

  any-append :
      (path : Text) (events : List WatcherQueueEvent) (event : WatcherQueueEvent)
      → any (waits_at path) (events ++ event ∷ [])
        ≡ (any (waits_at path) events || waits_at path event)
  any-append path [] event = ground arith
  any-append path (x ∷ events) event = ground (arith, any-append path events event)

  append-UniqueFiles :
      (events : List WatcherQueueEvent) (event : WatcherQueueEvent)
      → UniqueFiles events
      → (waits event ≡ true → any (waits_at (path_of event)) events ≡ false)
      → UniqueFiles (events ++ event ∷ [])
  append-UniqueFiles [] event h k = (λ w. refl, tt)
  append-UniqueFiles (x ∷ events) event (h, hs) k = (
    λ w. ground (arith, any-append (path_of x) events event),
    append-UniqueFiles events event hs (λ w. ground arith),
  )

  waits-stays :
      (e : RealtimeFileEvent) (candidate : WatcherQueueEvent)
      → waits_at e.path candidate ≡ true
      → stays context (file_event e) candidate ≡ false
  unfolding stays should_retain_queued_file_event
  waits-stays e (file_event candidate) h = ground arith
  waits-stays e (folder_delete candidate) h = cc
  waits-stays e (folder_rename candidate) h = cc
  waits-stays e (file_rename candidate) h = cc

  any-stays :
      (e : RealtimeFileEvent) (events : List WatcherQueueEvent)
      → any (waits_at e.path) (filter (stays context (file_event e)) events) ≡ false
  any-stays e [] = refl
  any-stays e (candidate ∷ events) = ground (arith, any-stays e events, waits-stays e candidate)

  any-stays_of_waiting :
      (event : WatcherQueueEvent) (events : List WatcherQueueEvent)
      → waits event ≡ true
      → any (waits_at (path_of event)) (filter (stays context event) events) ≡ false
  any-stays_of_waiting (file_event e) events w = any-stays e events
  any-stays_of_waiting (folder_delete e) events w = cc
  any-stays_of_waiting (folder_rename e) events w = cc
  any-stays_of_waiting (file_rename e) events w = cc

  pub enqueue-UniqueFiles :
      (r : WatcherQueueReduction) → UniqueFiles r.events → UniqueFiles (enqueue context r).events
  unfolding enqueue
  enqueue-UniqueFiles r h =
      append-UniqueFiles (filter (stays context r.event) r.events) r.event
        (filter-UniqueFiles (stays context r.event) r.events h)
        (any-stays_of_waiting r.event r.events)

  any-replace_rename :
      (path : Text) (p : WatcherQueueEvent) (events : List WatcherQueueEvent)
      → is_file p ≡ false
      → any (waits_at path) events ≡ false
      → any (waits_at path) (replace_rename p events) ≡ false
  unfolding replace_rename
  any-replace_rename path p [] f h = refl
  any-replace_rename path p (event ∷ events) f h =
      ground (arith, any-replace_rename path p events f)

  pub replace_rename-UniqueFiles :
      (p : WatcherQueueEvent) (events : List WatcherQueueEvent)
      → is_file p ≡ false
      → UniqueFiles events
      → UniqueFiles (replace_rename p events)
  unfolding replace_rename
  replace_rename-UniqueFiles p [] f h = tt
  replace_rename-UniqueFiles p (event ∷ events) f (h, hs) = (
    λ w. ground (arith, any-replace_rename (path_of event) p events f),
    replace_rename-UniqueFiles p events f hs,
  )

  any-rebase_child :
      (path : Text) (parent : DurableFolderRenameEvent) (e : DurableFileRenameEvent)
      (rest : List WatcherQueueEvent)
      → any (waits_at path) (rebase_child context parent (file_rename e) ++ rest)
        ≡ any (waits_at path) rest
  unfolding rebase_child reduce_folder_child_rename
  any-rebase_child path parent e rest = ground arith

  any-rebase_children :
      (path : Text) (parent : DurableFolderRenameEvent) (events : List WatcherQueueEvent)
      → any (waits_at path) (rebase_children context parent events) ≡ any (waits_at path) events
  unfolding rebase_children
  any-rebase_children path parent [] = refl
  any-rebase_children path parent (file_rename e ∷ events) =
      any-rebase_child path parent e (rebase_children context parent events)
      ∙ any-rebase_children path parent events
  any-rebase_children path parent (file_event e ∷ events) =
      ground (arith, any-rebase_children path parent events)
  any-rebase_children path parent (folder_rename e ∷ events) =
      any-rebase_children path parent events
  any-rebase_children path parent (folder_delete e ∷ events) =
      any-rebase_children path parent events

  rebase_child-UniqueFiles :
      (parent : DurableFolderRenameEvent) (e : DurableFileRenameEvent)
      (rest : List WatcherQueueEvent)
      → UniqueFiles rest
      → UniqueFiles (rebase_child context parent (file_rename e) ++ rest)
  unfolding rebase_child reduce_folder_child_rename
  rebase_child-UniqueFiles parent e rest h = ground arith

  pub rebase_children-UniqueFiles :
      (parent : DurableFolderRenameEvent) (events : List WatcherQueueEvent)
      → UniqueFiles events
      → UniqueFiles (rebase_children context parent events)
  unfolding rebase_children
  rebase_children-UniqueFiles parent [] h = tt
  rebase_children-UniqueFiles parent (file_rename e ∷ events) (h, hs) =
      rebase_child-UniqueFiles parent e (rebase_children context parent events)
        (rebase_children-UniqueFiles parent events hs)
  rebase_children-UniqueFiles parent (file_event e ∷ events) (h, hs) = (
    λ w. any-rebase_children e.path parent events ∙ h w,
    rebase_children-UniqueFiles parent events hs,
  )
  rebase_children-UniqueFiles parent (folder_rename e ∷ events) (h, hs) =
      (λ w. cc, rebase_children-UniqueFiles parent events hs)
  rebase_children-UniqueFiles parent (folder_delete e ∷ events) (h, hs) =
      (λ w. cc, rebase_children-UniqueFiles parent events hs)
