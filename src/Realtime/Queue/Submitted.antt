-- ===== src/Realtime/Queue/Submitted.antt =====
-- The queue never drops or changes an event that was submitted.
use obsidian_yandex_disk_syn.Common.{
  ◌≡◌, refl, ap, ◌∙◌, inl, inr, Bool, true, false, some, List, [], ◌∷◌, ◌++◌, arith, nat_eq,
  bool_eq, option_eq, list_eq, Option-cases, filter, find, All, has,
}
use obsidian_yandex_disk_syn.Common.Text.{Text}
use mathlib.Core.List.{append-nil}
use obsidian_yandex_disk_syn.Realtime.Events.{
  DurableFileRenameEvent, DurableFolderRenameEvent, WatcherQueueEvent, file_event, folder_delete,
  folder_rename, file_rename, id_of, RenameEvent, file_rename_event, folder_rename_event,
}
use obsidian_yandex_disk_syn.Realtime.Rename.{reduce_folder_child_rename, RenameChain}
use obsidian_yandex_disk_syn.Realtime.Queue.{
  rebase_child, rebase_children, rebase_queue, find_by_id,
}
use obsidian_yandex_disk_syn.Realtime.Waiting.{
  WatcherQueueContext, WatcherQueueReduction, is_submitted_id, is_submitted, stays, enqueue,
  folder_renames, file_renames, replace_rename,
}

module _ (context : WatcherQueueContext) where
  abbrev pub submitted : List WatcherQueueEvent → List WatcherQueueEvent
  submitted events = filter (is_submitted context) events

  submitted-append :
      (xs ys : List WatcherQueueEvent) → submitted (xs ++ ys) ≡ submitted xs ++ submitted ys
  submitted-append [] ys = refl
  submitted-append (x ∷ xs) ys = ground (arith, submitted-append xs ys)

  -- The event can be changed: nothing of it was submitted.
  abbrev pub IsFresh : WatcherQueueEvent → Type 0
  IsFresh event = is_submitted context event ≡ false

  pub submitted-filter :
      (keep : WatcherQueueEvent → Bool) (events : List WatcherQueueEvent)
      → ((event : WatcherQueueEvent) → is_submitted context event ≡ true → keep event ≡ true)
      → submitted (filter keep events) ≡ submitted events
  submitted-filter keep [] h = refl
  submitted-filter keep (event ∷ events) h = ground (arith, submitted-filter keep events h, h event)

  stays_of_submitted :
      (event candidate : WatcherQueueEvent)
      → is_submitted context candidate ≡ true
      → stays context event candidate ≡ true
  unfolding stays
  stays_of_submitted (file_event e) (file_event candidate) h = rw h
  stays_of_submitted (file_event e) (folder_delete candidate) h = refl
  stays_of_submitted (file_event e) (folder_rename candidate) h = refl
  stays_of_submitted (file_event e) (file_rename candidate) h = refl
  stays_of_submitted (folder_delete e) candidate h = rw h
  stays_of_submitted (folder_rename e) candidate h = rw h
  stays_of_submitted (file_rename e) candidate h = rw h

  pub submitted-enqueue :
      (r : WatcherQueueReduction)
      → IsFresh r.event
      → submitted (enqueue context r).events ≡ submitted r.events
  unfolding enqueue
  submitted-enqueue r fresh = ground (
    arith,
    submitted-append (filter (stays context r.event) r.events) (r.event ∷ []),
    submitted-filter (stays context r.event) r.events (stays_of_submitted r.event),
    append-nil (submitted r.events),
  )

  submitted-replace_rename :
      (p : WatcherQueueEvent) (events : List WatcherQueueEvent)
      → IsFresh p
      → submitted (replace_rename p events) ≡ submitted events
  unfolding replace_rename
  submitted-replace_rename p [] fresh = refl
  submitted-replace_rename p (event ∷ events) fresh =
      ground (arith, submitted-replace_rename p events fresh)

  submitted-rebase_child :
      (parent : DurableFolderRenameEvent) (event : WatcherQueueEvent)
      → submitted (rebase_child context parent event) ≡ submitted (event ∷ [])
  unfolding rebase_child reduce_folder_child_rename
  submitted-rebase_child parent (file_rename event) = ground arith
  submitted-rebase_child parent event = refl

  pub submitted-rebase_children :
      (parent : DurableFolderRenameEvent) (events : List WatcherQueueEvent)
      → submitted (rebase_children context parent events) ≡ submitted events
  unfolding rebase_children
  submitted-rebase_children parent [] = refl
  submitted-rebase_children parent (event ∷ events) = ground (
    arith,
    submitted-append (rebase_child context parent event) (rebase_children context parent events),
    submitted-rebase_child parent event,
    submitted-rebase_children parent events,
  )

  -- No rename has the identity of a submitted upload or delete.
  abbrev is_rename : WatcherQueueEvent → Bool
  is_rename (folder_rename e) = true
  is_rename (file_rename e) = true
  is_rename event = false

  abbrev pub RenamesApart : List WatcherQueueEvent → Type 0
  RenamesApart events =
      All (λ event. is_rename event ≡ true → has context.submitted_file_ids (id_of event) ≡ false)
        events

  abbrev pub Apart {ℓ} : {T : Type ℓ} → (T → Text) → List T → Type 0
  Apart id events = All (λ event. has context.submitted_file_ids (id event) ≡ false) events

  pub folder_renames-Apart :
      (events : List WatcherQueueEvent)
      → RenamesApart events
      → Apart (λ (e : DurableFolderRenameEvent). e.id) (folder_renames events)
  folder_renames-Apart [] h = tt
  folder_renames-Apart (folder_rename e ∷ events) (h, hs) = (h refl, folder_renames-Apart events hs)
  folder_renames-Apart (file_rename e ∷ events) (h, hs) = folder_renames-Apart events hs
  folder_renames-Apart (file_event e ∷ events) (h, hs) = folder_renames-Apart events hs
  folder_renames-Apart (folder_delete e ∷ events) (h, hs) = folder_renames-Apart events hs

  pub file_renames-Apart :
      (events : List WatcherQueueEvent)
      → RenamesApart events
      → Apart (λ (e : DurableFileRenameEvent). e.id) (file_renames events)
  file_renames-Apart [] h = tt
  file_renames-Apart (file_rename e ∷ events) (h, hs) = (h refl, file_renames-Apart events hs)
  file_renames-Apart (folder_rename e ∷ events) (h, hs) = file_renames-Apart events hs
  file_renames-Apart (file_event e ∷ events) (h, hs) = file_renames-Apart events hs
  file_renames-Apart (folder_delete e ∷ events) (h, hs) = file_renames-Apart events hs

  pub find-Apart {ℓ} :
      {T : Type ℓ} (id : T → Text) (test : T → Bool) (events : List T) (found : T)
      → Apart id events
      → find test events ≡ some found
      → has context.submitted_file_ids (id found) ≡ false
  find-Apart id test [] found h e = cc
  find-Apart id test (event ∷ events) found (h, hs) e =
      ground (arith, find-Apart id test events found hs)

  append-RenamesApart :
      (xs ys : List WatcherQueueEvent) → RenamesApart xs → RenamesApart ys → RenamesApart (xs ++ ys)
  append-RenamesApart [] ys h k = k
  append-RenamesApart (x ∷ xs) ys (h, hs) k = (h, append-RenamesApart xs ys hs k)

  rebase_child-RenamesApart :
      (parent : DurableFolderRenameEvent) (e : DurableFileRenameEvent)
      → has context.submitted_file_ids e.id ≡ false
      → RenamesApart (rebase_child context parent (file_rename e))
  unfolding rebase_child reduce_folder_child_rename
  rebase_child-RenamesApart parent e h = ground arith

  pub rebase_children-RenamesApart :
      (parent : DurableFolderRenameEvent) (events : List WatcherQueueEvent)
      → RenamesApart events
      → RenamesApart (rebase_children context parent events)
  unfolding rebase_children
  rebase_children-RenamesApart parent [] h = tt
  rebase_children-RenamesApart parent (file_rename e ∷ events) (h, hs) =
      append-RenamesApart _ _ (rebase_child-RenamesApart parent e (h refl))
        (rebase_children-RenamesApart parent events hs)
  rebase_children-RenamesApart parent (folder_rename e ∷ events) (h, hs) =
      (h, rebase_children-RenamesApart parent events hs)
  rebase_children-RenamesApart parent (file_event e ∷ events) (h, hs) =
      (h, rebase_children-RenamesApart parent events hs)
  rebase_children-RenamesApart parent (folder_delete e ∷ events) (h, hs) =
      (h, rebase_children-RenamesApart parent events hs)

  module _ {T : Type 0} ⦃rename : RenameEvent T⦄ (wrap : T → WatcherQueueEvent) where
    find_by_id-id :
        (id : Text) (events : List T) (found : T)
        → find_by_id wrap id events ≡ some found
        → rename.rename_id found ≡ id
    find_by_id-id id [] found e = cc
    find_by_id-id id (event ∷ events) found e = ground (arith, find_by_id-id id events found)

    pub submitted-rebase_queue :
        (r : WatcherQueueReduction) (chain : RenameChain T) (id : Text)
        → ((event : T) → id_of (wrap event) ≡ rename.rename_id event)
        → is_submitted_id context id ≡ false
        → submitted (rebase_queue wrap r chain id).events ≡ submitted r.events
    unfolding rebase_queue
    submitted-rebase_queue r chain id same fresh =
        elim (Option-cases (find_by_id wrap id chain.events)) [
          | inl e ↦ rw (rebase_queue, e)
          | inr (found, e) ↦
              rw (rebase_queue, e)
                (submitted-replace_rename (wrap found) r.events (
                  ap (is_submitted_id context) (same found ∙ find_by_id-id id chain.events found e)
                  ∙ fresh))
        ]
