-- ===== src/Coordinator/Counting.antt =====
-- The two counters that other parts of the plugin read: the pending work, and the pending full session.
pub mod Open
pub mod Moves
pub mod Edges
use obsidian_yandex_disk_syn.Common.{
  ℕ, all, ◌+◌, ◌-◌, ◌≡◌, refl, sym, ap, ◌∙◌, inl, inr, Bool, true, false, not, ◌&&◌, Option, none,
  some, List, [], ◌∷◌, ◌++◌, arith, ltb, if◌then◌else◌, is_some, ◌==◌, ◌!=◌, nat_eq, bool_eq,
  option_eq, list_eq, Bool-cases, Option-cases,
}
use obsidian_yandex_disk_syn.Coordinator.{
  SyncSessionKind, full, force, realtime, maintenance, is_full, Phase, preparing, waiting, active,
  settled, released, closed, Session, SyncCoordinator, idle_coordinator, Event, request, RunCalls,
  no_call, call, count_work, begin_prepare, share, prepared, prepare_failed, hook_returned,
  hook_rejected, started, finished, settlement_released, full_released, has_pending_work, change,
  take_out, start_in, hook_return, hook_reject, finish_body, to_released, to_closed, run,
  enqueue_session, abort, with_queue, start_session, finish_session, change_settled, give_back_work,
  give_back_full, step, steps,
}
use obsidian_yandex_disk_syn.Coordinator.Changes.{
  bit, count_of, count_of-append, change-Changed, take_out-count, start_in-count,
}
use obsidian_yandex_disk_syn.Coordinator.Counting.Open.{
  total, is_out, is_outstanding, is_closed, is_open_full, is_stray, is_begun, Inv, count_of_one,
  stray_of_none, total_stray_of_none,
}
use obsidian_yandex_disk_syn.Coordinator.Counting.Moves.{
  Moved, to_queue, to_aborted, to_active, enqueue_session-Moved, abort-Moved, change_queue-Moved,
  change_settled-Moved, start_session-Moved,
}
use obsidian_yandex_disk_syn.Coordinator.Counting.Edges.{
  Neutral, Moved-Inv, to_queue-Neutral, to_aborted-Neutral, hook_return-Neutral,
  hook_reject-Neutral, to_active-Neutral, finish_body-Neutral,
}

-- `onPendingWorkChanged` returns, and neither it nor `prepare` calls `run` before it returns.
abbrev pub is_plain_calls : RunCalls → Bool
is_plain_calls no_call = true
is_plain_calls (call kind no_call returns no_call more) = returns && is_plain_calls more
is_plain_calls _ = false

abbrev pub is_plain : Event → Bool
is_plain (request calls) = is_plain_calls calls
is_plain _ = true

abbrev opened : SyncSessionKind → SyncCoordinator → SyncCoordinator
opened kind c = share kind (c.sequence + 1) (begin_prepare kind (c.sequence + 1) (count_work c))

opened-Inv :
    (kind : SyncSessionKind) (c : SyncCoordinator)
    → (is_full kind && is_some c.pending_full) ≡ false
    → Inv c
    → Inv (opened kind c)
unfolding count_work begin_prepare share
opened-Inv kind c opens inv =
    let s : Session = record { id = c.sequence + 1; kind = kind; phase = preparing } in
    let grown = λ (p : Session → Bool). count_of-append p c.preparations (s ∷ []) in
    let one = λ (p : Session → Bool). count_of_one p s in
    let pending : Option ℕ = if is_full kind then some (c.sequence + 1) else c.pending_full in
    record {
      fresh = ground (arith, grown is_begun, one is_begun, inv.fresh);
      work = ground (arith, grown is_outstanding, one is_outstanding, inv.work);
      one_full = ground (arith, grown is_open_full, one is_open_full, inv.one_full);
      joined = elim (Bool-cases (is_full kind)) [
        | inr other ↦
            ground
              (arith, grown (is_stray c.pending_full), one (is_stray c.pending_full), inv.joined)
        | inl whole ↦ ground (
          arith,
          grown (is_stray (some (c.sequence + 1))),
          one (is_stray (some (c.sequence + 1))),
          total_stray_of_none (some (c.sequence + 1)) c (ground (arith, inv.one_full)),
        )
      ];
    }

run-Inv :
    (calls : RunCalls) (c : SyncCoordinator)
    → is_plain_calls calls ≡ true
    → Inv c
    → Inv (run calls c)
unfolding run
run-Inv no_call c plain inv = inv
run-Inv (call kind no_call true no_call more) c plain inv =
    elim (Bool-cases (is_full kind && is_some c.pending_full)) [
      | inl joins ↦ rw joins (run-Inv more c plain inv)
      | inr opens ↦ rw opens (run-Inv more (opened kind c) plain (opened-Inv kind c opens inv))
    ]
run-Inv (call kind no_call false no_call more) c plain inv = absurd (cc)
run-Inv (call kind no_call returns (call _ _ _ _ _) more) c plain inv = absurd (cc)
run-Inv (call kind (call _ _ _ _ _) returns in_prepare more) c plain inv = absurd (cc)

give_back_work-Inv : (id : ℕ) (c d : SyncCoordinator) → give_back_work id c ≡ some d → Inv c → Inv d
unfolding give_back_work
give_back_work-Inv id c d h inv = elim (Option-cases (change_settled to_released id c)) [
  | inl off ↦ absurd (ground arith)
  | inr (m, on) ↦
      let (moved, eq, same) = change_settled-Moved to_released id c m on in
      let e : d ≡ record m { pending_work = m.pending_work - 1 } = ground arith in
      let enabled = moved.enabled in
      let (k, w) : (m.pending_full ≡ c.pending_full) × (m.pending_work ≡ c.pending_work) =
        (rw eq refl, rw eq refl) in
      rw e (record {
        fresh = moved.fresh ∙ inv.fresh;
        work = ground (arith, moved.counts is_outstanding, inv.work);
        one_full = ground (arith, moved.counts is_open_full, inv.one_full);
        joined = ground (arith, moved.counts (is_stray m.pending_full), inv.joined);
      })
]

close_edge :
    (kind : SyncSessionKind) (a b : Phase)
    → to_closed kind a ≡ some b
    → (kind ≡ full) × (a ≡ released) × (b ≡ closed)
close_edge full preparing b h = cc
close_edge full (waiting hooked) b h = cc
close_edge full active b h = cc
close_edge full settled b h = cc
close_edge full released b h = ground arith
close_edge full closed b h = cc
close_edge force a b h = cc
close_edge realtime a b h = cc
close_edge maintenance a b h = cc

give_back_full-Inv : (id : ℕ) (c d : SyncCoordinator) → give_back_full id c ≡ some d → Inv c → Inv d
unfolding give_back_full
give_back_full-Inv id c d h inv = elim (Option-cases (change_settled to_closed id c)) [
  | inl off ↦ absurd (ground arith)
  | inr (m, on) ↦
      let (moved, eq, same) = change_settled-Moved to_closed id c m on in
      let e : d
          ≡ record m { pending_full = if m.pending_full == some id then none else m.pending_full } =
        ground arith in
      let (k, w) : (m.pending_full ≡ c.pending_full) × (m.pending_work ≡ c.pending_work) =
        (rw eq refl, rw eq refl) in
      let was = close_edge moved.session.kind moved.session.phase moved.phase moved.enabled in
      let mine : c.pending_full ≡ some id =
        ground (arith, moved.counts (is_stray c.pending_full), inv.joined) in
      let none_open : total is_open_full m ≡ 0 =
        ground (arith, moved.counts is_open_full, inv.one_full) in
      rw e (record {
        fresh = moved.fresh ∙ inv.fresh;
        work = ground (arith, moved.counts is_outstanding, inv.work);
        one_full = ground arith;
        joined =
            total_stray_of_none (if m.pending_full == some id then none else m.pending_full) m
              none_open;
      })
]

change_queue-Inv :
    (next : SyncSessionKind → Phase → Option Phase) (id : ℕ) (c d : SyncCoordinator)
    → Neutral next
    → with_queue c (change next id c.queue) ≡ some d
    → Inv c
    → Inv d
change_queue-Inv next id c d n h inv = elim (Option-cases (change next id c.queue)) [
  | inl off ↦ absurd (ground arith)
  | inr (queue, on) ↦
      let e : d ≡ record c { queue = queue } = ground arith in
      Moved-Inv next c d n
        (change_queue-Moved next id c queue d on (rw e refl) (rw e refl) (rw e refl)) (rw e refl)
        (rw e refl) inv
]

finish_session-Inv : (id : ℕ) (c d : SyncCoordinator) → finish_session id c ≡ some d → Inv c → Inv d
unfolding finish_session
finish_session-Inv id c d h inv = elim (Option-cases (change finish_body id c.queue)) [
  | inl off ↦ absurd (ground arith)
  | inr (queue, on) ↦
      let e : d ≡ record c { queue = queue; active_session = none } = ground arith in
      Moved-Inv finish_body c d finish_body-Neutral
        (change_queue-Moved finish_body id c queue d on (rw e refl) (rw e refl) (rw e refl))
        (rw e refl) (rw e refl) inv
]

pub step-Inv :
    (e : Event) (c d : SyncCoordinator) → is_plain e ≡ true → step e c ≡ some d → Inv c → Inv d
unfolding step
step-Inv (request calls) c d p h inv =
    let e : run calls c ≡ d = ground arith in rw (← e) (run-Inv calls c p inv)
step-Inv (prepared id) c d p h inv =
    let (m, e) = enqueue_session-Moved id c d inv h in
    Moved-Inv to_queue c d to_queue-Neutral m (rw e refl) (rw e refl) inv
step-Inv (prepare_failed id) c d p h inv =
    let (m, e) = abort-Moved id c d inv h in
    Moved-Inv to_aborted c d to_aborted-Neutral m (rw e refl) (rw e refl) inv
step-Inv (hook_returned id) c d p h inv =
    change_queue-Inv hook_return id c d hook_return-Neutral h inv
step-Inv (hook_rejected id) c d p h inv =
    change_queue-Inv hook_reject id c d hook_reject-Neutral h inv
step-Inv (started id) c d p h inv =
    let (m, e) = start_session-Moved id c d h in
    Moved-Inv to_active c d to_active-Neutral m (rw e refl) (rw e refl) inv
step-Inv (finished id) c d p h inv = finish_session-Inv id c d h inv
step-Inv (settlement_released id) c d p h inv = give_back_work-Inv id c d h inv
step-Inv (full_released id) c d p h inv = give_back_full-Inv id c d h inv

steps-Inv :
    (es : List Event) (c d : SyncCoordinator)
    → all is_plain es ≡ true
    → steps es c ≡ some d
    → Inv c
    → Inv d
unfolding steps
steps-Inv [] c d p h inv = let e : c ≡ d = ground arith in rw (← e) inv
steps-Inv (e ∷ es) c d p h inv = elim (Option-cases (step e c)) [
  | inl off ↦ absurd (ground arith)
  | inr (m, on) ↦
      steps-Inv es m d (ground arith) (rw (steps, on) at h) (step-Inv e c m (ground arith) on inv)
]

idle_coordinator-Inv : Inv idle_coordinator
unfolding idle_coordinator count_of
idle_coordinator-Inv = record { fresh = refl; work = refl; one_full = refl; joined = refl }

-- Whatever the interleaving of requests, preparations, `onQueued` hooks, bodies and settlements from
-- the idle coordinator on, whichever of these fail, and as long as `onPendingWorkChanged` returns
-- after `pendingWork++` and neither it nor `prepare` calls `run` before it returns:
-- `hasPendingWork` answers whether some session is still outstanding; one full session at most is
-- open, and there is one exactly if `pendingFull` is set; and every open full session is the one
-- that a further full request would join.
pub steps_counters :
    (es : List Event) (c : SyncCoordinator)
    → all is_plain es ≡ true
    → steps es idle_coordinator ≡ some c
    → (has_pending_work c ≡ ltb 0 (total is_outstanding c))
      × (total is_open_full c ≡ bit (is_some c.pending_full))
      × (total (is_stray c.pending_full) c ≡ 0)
unfolding has_pending_work
steps_counters es c p h =
    let inv = steps-Inv es idle_coordinator c p h idle_coordinator-Inv in
    (ap (λ (n : ℕ). ltb 0 n) inv.work, inv.one_full, inv.joined)
