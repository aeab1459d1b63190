-- ===== src/Coordinator/Refinement.antt =====
-- The coordinator refines the lock, as long as no `onQueued` hook rejects.
use obsidian_yandex_disk_syn.Common.{
  ℕ, ◌+◌, ◌-◌, ◌≡◌, refl, sym, ◌∙◌, inl, inr, Bool, true, false, ◌&&◌, Option, none, some, List, [],
  ◌∷◌, ◌++◌, arith, if◌then◌else◌, is_some, ◌==◌, nat_eq, bool_eq, option_eq, list_eq, Option-cases,
  any,
}
use obsidian_yandex_disk_syn.Coordinator.{
  SyncSessionKind, is_full, Phase, waiting, settled, Session, SyncCoordinator, idle_coordinator,
  Event, request, RunCalls, no_call, call, count_work, begin_prepare, share, prepared,
  prepare_failed, hook_returned, hook_rejected, started, finished, settlement_released,
  full_released, change, take_out, start_in, hook_return, finish_body, to_released, to_closed, run,
  enqueue_session, start_session, finish_session, change_settled, step, steps,
}
use obsidian_yandex_disk_syn.Coordinator.Fifo.{
  FifoLock, LockStep, arrive, take_lock, leave, LockReach, stay, more, waiters_of, running_of,
  served_of, lock_of, Serial, AllWaiting, Serial-append, lock-append,
}
use obsidian_yandex_disk_syn.Coordinator.Fifo.Quiet.{
  Quiet, change-Same, hook_return-Quiet, to_released-Quiet, to_closed-Quiet,
}
use obsidian_yandex_disk_syn.Coordinator.Fifo.Handover.{change-Left, start_in-Started}

-- The session in `activeSession`.
abbrev pub active_id : Option (ℕ × SyncSessionKind) → Option ℕ
active_id none = none
active_id (some (id, kind)) = some id

-- One session runs at most, and `activeSession` names it.
pub record Exclusive (c : SyncCoordinator) : Type 0 where
  pub serial : Serial c.queue
  pub named : active_id c.active_session ≡ running_of c.queue

-- A step of the coordinator is a step of the lock, or does not concern it.
pub data Refines (c d : SyncCoordinator) : Type 0 where
  stutter : Exclusive d → lock_of d.queue ≡ lock_of c.queue → Refines c d
  locks : Exclusive d → LockStep (lock_of c.queue) (lock_of d.queue) → Refines c d

abbrev pub is_rejection : Event → Bool
is_rejection (hook_rejected id) = true
is_rejection _ = false

same_queue :
    (c d : SyncCoordinator)
    → Exclusive c
    → d.queue ≡ c.queue
    → d.active_session ≡ c.active_session
    → Refines c d
same_queue c d x q a =
    stutter (record { serial = rw q x.serial; named = rw (q, a) x.named }) (rw q refl)

side_change :
    (next : SyncSessionKind → Phase → Option Phase) (id : ℕ) (c : SyncCoordinator)
    (queue : List Session) (d : SyncCoordinator)
    → Quiet next
    → change next id c.queue ≡ some queue
    → d.queue ≡ queue
    → d.active_session ≡ c.active_session
    → Exclusive c
    → Refines c d
side_change next id c queue d quiet on q a x =
    let same = change-Same next quiet id c.queue queue on in
    stutter
      (record {
        serial = rw q (same.serial_too x.serial);
        named = rw (q, a) (x.named ∙ sym same.running);
      })
      (rw q (λ i. record {
        waiters = same.waiters i;
        running = same.running i;
        served = same.served i;
      }))

side_change_settled :
    (next : SyncSessionKind → Phase → Option Phase) (id : ℕ) (c m d : SyncCoordinator)
    → Quiet next
    → change_settled next id c ≡ some m
    → d.queue ≡ m.queue
    → d.active_session ≡ m.active_session
    → Exclusive c
    → Refines c d
unfolding change_settled
side_change_settled next id c m d quiet h q a x = elim (Option-cases (change next id c.queue)) [
  | inr (queue, on) ↦
      let e : m ≡ record c { queue = queue } = ground arith in
      side_change next id c queue d quiet on (rw q (rw e refl)) (rw a (rw e refl)) x
  | inl off ↦ elim (Option-cases (change next id c.aborted)) [
    | inl none_too ↦ absurd (ground arith)
    | inr (aborted, on) ↦
        let e : m ≡ record c { aborted = aborted } = ground arith in
        same_queue c d x (rw q (rw e refl)) (rw a (rw e refl))
  ]
]

run-queue :
    (calls : RunCalls) (c : SyncCoordinator)
    → ((run calls c).queue ≡ c.queue) × ((run calls c).active_session ≡ c.active_session)
unfolding run
run-queue no_call c = (refl, refl)
run-queue (call kind in_hook returns in_prepare later) c =
    let id = c.sequence + 1 in
    let counted = run in_hook (count_work c) in
    let begun = begin_prepare kind id counted in
    let shared = share kind id (run in_prepare begun) in
    let joins = is_full kind && is_some c.pending_full in
    ground (
      arith,
      run-queue in_hook (count_work c),
      run-queue in_prepare begun,
      run-queue later (if joins then c else if returns then shared else counted),
    )

run-Refines : (calls : RunCalls) (c : SyncCoordinator) → Exclusive c → Refines c (run calls c)
run-Refines calls c x = let (q, a) = run-queue calls c in same_queue c (run calls c) x q a

enqueue_session-Refines :
    (id : ℕ) (c d : SyncCoordinator) → enqueue_session id c ≡ some d → Exclusive c → Refines c d
unfolding enqueue_session
enqueue_session-Refines id c d h x = elim (Option-cases (take_out id c.preparations)) [
  | inl off ↦ absurd (ground arith)
  | inr ((s, rest), on) ↦
      let w : Session = record s { phase = waiting false } in
      let e : d ≡ record c { preparations = rest; queue = c.queue ++ w ∷ [] } = ground arith in
      let l = lock-append c.queue w refl in
      rw e (
        locks (record { serial = Serial-append c.queue w x.serial refl; named = x.named ∙ sym l.1 })
          (arrive s.id (λ i. record { waiters = l.0 i; running = l.1 i; served = l.2 i })))
]

start_session-Refines :
    (id : ℕ) (c d : SyncCoordinator) → start_session id c ≡ some d → Exclusive c → Refines c d
unfolding start_session
start_session-Refines id c d h x = elim (Option-cases (start_in true id c.queue)) [
  | inl off ↦ absurd (ground arith)
  | inr ((s, queue), on) ↦
      let e : d ≡ record c { queue = queue; active_session = some (s.id, s.kind) } = ground arith in
      let st = start_in-Started true id c.queue s queue refl on x.serial in
      rw e (
        locks (record { serial = st.serial; named = sym st.runs })
          (take_lock s.id (waiters_of queue) st.waiters st.free (λ i. record {
            waiters = waiters_of queue;
            running = st.runs i;
            served = st.served i;
          })))
]

finish_session-Refines :
    (id : ℕ) (c d : SyncCoordinator) → finish_session id c ≡ some d → Exclusive c → Refines c d
unfolding finish_session
finish_session-Refines id c d h x = elim (Option-cases (change finish_body id c.queue)) [
  | inl off ↦ absurd (ground arith)
  | inr (queue, on) ↦
      let e : d ≡ record c { queue = queue; active_session = none } = ground arith in
      let l = change-Left id c.queue queue on x.serial in
      rw e (
        locks (record { serial = l.serial; named = sym l.free })
          (leave l.id l.ran
            (λ i. record { waiters = l.waiters i; running = l.free i; served = l.served i })))
]

step-Refines :
    (e : Event) (c d : SyncCoordinator)
    → step e c ≡ some d
    → is_rejection e ≡ false
    → Exclusive c
    → Refines c d
unfolding step
step-Refines (request calls) c d h r x =
    let e : run calls c ≡ d = ground arith in rw (← e) (run-Refines calls c x)
step-Refines (prepared id) c d h r x = enqueue_session-Refines id c d h x
step-Refines (prepare_failed id) c d h r x = elim (Option-cases (take_out id c.preparations)) [
  | inl off ↦ absurd (ground arith)
  | inr ((s, rest), on) ↦
      let e : d ≡ record c {
        preparations = rest;
        aborted = c.aborted ++ record s { phase = settled } ∷ [];
      } =
        ground arith in
      same_queue c d x (rw e refl) (rw e refl)
]
step-Refines (hook_returned id) c d h r x = elim (Option-cases (change hook_return id c.queue)) [
  | inl off ↦ absurd (ground arith)
  | inr (queue, on) ↦
      let e : d ≡ record c { queue = queue } = ground arith in
      side_change hook_return id c queue d hook_return-Quiet on (rw e refl) (rw e refl) x
]
step-Refines (hook_rejected id) c d h r x = absurd (cc)
step-Refines (started id) c d h r x = start_session-Refines id c d h x
step-Refines (finished id) c d h r x = finish_session-Refines id c d h x
step-Refines (settlement_released id) c d h r x =
    elim (Option-cases (change_settled to_released id c)) [
      | inl off ↦ absurd (ground arith)
      | inr (m, on) ↦
          let e : d ≡ record m { pending_work = m.pending_work - 1 } = ground arith in
          side_change_settled to_released id c m d to_released-Quiet on (rw e refl) (rw e refl) x
    ]
step-Refines (full_released id) c d h r x = elim (Option-cases (change_settled to_closed id c)) [
  | inl off ↦ absurd (ground arith)
  | inr (m, on) ↦
      let e : d
          ≡ record m { pending_full = if m.pending_full == some id then none else m.pending_full } =
        ground arith in
      side_change_settled to_closed id c m d to_closed-Quiet on (rw e refl) (rw e refl) x
]

abbrev pub to_list : Option ℕ → List ℕ
to_list none = []
to_list (some id) = id ∷ []

abbrev pub ids : List Session → List ℕ
ids [] = []
ids (s ∷ rest) = s.id ∷ ids rest

ids-AllWaiting :
    (xs : List Session)
    → AllWaiting xs
    → (ids xs ≡ waiters_of xs) × (running_of xs ≡ none) × (served_of xs ≡ [])
ids-AllWaiting [] w = (refl, refl, refl)
ids-AllWaiting (s ∷ xs) w = ground (arith, ids-AllWaiting xs w.1)

ids-Serial :
    (xs : List Session)
    → Serial xs
    → ids xs ≡ served_of xs ++ (to_list (running_of xs) ++ waiters_of xs)
ids-Serial [] w = refl
ids-Serial (s ∷ xs) (inl a) = ground (arith, ids-Serial xs a.1)
ids-Serial (s ∷ xs) (inr (inl b)) = ground (arith, ids-AllWaiting xs b.1)
ids-Serial (s ∷ xs) (inr (inr b)) = ground (arith, ids-AllWaiting xs b.1)

LockReach-Refines :
    (l : FifoLock) (c d : SyncCoordinator)
    → LockReach l (lock_of c.queue)
    → Refines c d
    → LockReach l (lock_of d.queue) × Exclusive d
LockReach-Refines l c d r (stutter x e) = (rw e r, x)
LockReach-Refines l c d r (locks x s) = (more r s, x)

steps-LockReach :
    (es : List Event) (l : FifoLock) (c d : SyncCoordinator)
    → steps es c ≡ some d
    → any is_rejection es ≡ false
    → Exclusive c
    → LockReach l (lock_of c.queue)
    → LockReach l (lock_of d.queue) × Exclusive d
unfolding steps
steps-LockReach [] l c d h n x r = let e : c ≡ d = ground arith in rw (← e) ((r, x))
steps-LockReach (e ∷ es) l c d h n x r = elim (Option-cases (step e c)) [
  | inl off ↦ absurd (ground arith)
  | inr (m, on) ↦
      let (reached, still) = LockReach-Refines l c m r (step-Refines e c m on (ground arith) x) in
      steps-LockReach es l m d (rw (steps, on) at h) (ground arith) still reached
]

idle_coordinator-Exclusive : Exclusive idle_coordinator
unfolding idle_coordinator
idle_coordinator-Exclusive = record { serial = tt; named = refl }

-- The coordinator is a lock with a first-in-first-out queue: after any events from the idle
-- coordinator, as long as no `onQueued` rejects, the promise chain stands for a lock that is
-- reached from the free lock by arrivals, by the first waiter's taking the free lock, and by the
-- holder's leaving it; `activeSession` is the holder; and the sessions served, then the holder,
-- then the waiters are the sessions of the chain in the order in which they were enqueued.
pub steps-FifoLock :
    (es : List Event) (c : SyncCoordinator)
    → steps es idle_coordinator ≡ some c
    → any is_rejection es ≡ false
    → LockReach (lock_of []) (lock_of c.queue)
      × (active_id c.active_session ≡ running_of c.queue)
      × (ids c.queue ≡ served_of c.queue ++ (to_list (running_of c.queue) ++ waiters_of c.queue))
unfolding idle_coordinator
steps-FifoLock es c h n =
    let (reached, x) =
      steps-LockReach es (lock_of []) idle_coordinator c h n idle_coordinator-Exclusive stay in
    (reached, x.named, ids-Serial c.queue x.serial)
