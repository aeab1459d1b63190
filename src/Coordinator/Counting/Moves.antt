-- ===== src/Coordinator/Counting/Moves.antt =====
-- An operation on a session moves it along one edge of its life, which all counts follow.
use obsidian_yandex_disk_syn.Common.{
  ℕ, ◌+◌, ◌≡◌, refl, sym, ◌∙◌, inl, inr, Bool, true, false, Option, none, some, List, [], ◌∷◌, ◌++◌,
  arith, nat_eq, bool_eq, option_eq, list_eq, Option-cases,
}
use obsidian_yandex_disk_syn.Coordinator.{
  SyncSessionKind, Phase, preparing, waiting, active, settled, Session, SyncCoordinator, change,
  take_out, start_in, enqueue_session, abort, start_session, change_settled,
}
use obsidian_yandex_disk_syn.Coordinator.Changes.{
  bit, count_of, count_of-append, change-Changed, take_out-count, start_in-count,
}
use obsidian_yandex_disk_syn.Coordinator.Counting.Open.{total, is_begun, Inv, count_of_one}

-- One session moves along an edge; all else that the counters see stays.
pub record Moved (next : SyncSessionKind → Phase → Option Phase) (c d : SyncCoordinator)
    : Type 0 where
  pub session : Session
  pub phase : Phase
  pub enabled : next session.kind session.phase ≡ some phase
  pub fresh : count_of is_begun d.preparations ≡ count_of is_begun c.preparations
  pub counts :
      (p : Session → Bool)
      → total p d + bit (p session) ≡ total p c + bit (p (record session { phase = phase }))

abbrev pub to_queue : SyncSessionKind → Phase → Option Phase
to_queue kind preparing = some (waiting false)
to_queue kind _ = none

abbrev pub to_aborted : SyncSessionKind → Phase → Option Phase
to_aborted kind preparing = some settled
to_aborted kind _ = none

abbrev pub to_active : SyncSessionKind → Phase → Option Phase
to_active kind (waiting true) = some active
to_active kind _ = none

pub phase_of_fresh :
    (id : ℕ) (xs : List Session) (s : Session) (ys : List Session)
    → take_out id xs ≡ some (s, ys)
    → count_of is_begun xs ≡ 0
    → (s.phase ≡ preparing) × (count_of is_begun ys ≡ 0)
phase_of_fresh id xs s ys h f = ground (arith, take_out-count id xs s ys is_begun h)

pub enqueue_session-Moved :
    (id : ℕ) (c d : SyncCoordinator)
    → Inv c
    → enqueue_session id c ≡ some d
    → Moved to_queue c d × (d ≡ record c { preparations = d.preparations; queue = d.queue })
unfolding enqueue_session
enqueue_session-Moved id c d inv h = elim (Option-cases (take_out id c.preparations)) [
  | inl off ↦ absurd (ground arith)
  | inr ((s, rest), on) ↦
      let was = phase_of_fresh id c.preparations s rest on inv.fresh in
      let e : d ≡ record c {
        preparations = rest;
        queue = c.queue ++ record s { phase = waiting false } ∷ [];
      } =
        ground arith in
      (
        record {
          session = s;
          phase = waiting false;
          enabled = rw was.0 refl;
          fresh = rw e (was.1 ∙ sym inv.fresh);
          counts = λ p. rw e (
              omega (
                arith,
                take_out-count id c.preparations s rest p on,
                count_of-append p c.queue (record s { phase = waiting false } ∷ []),
                count_of_one p (record s { phase = waiting false }),
              ));
        },
        rw e refl,
      )
]

pub abort-Moved :
    (id : ℕ) (c d : SyncCoordinator)
    → Inv c
    → abort id c ≡ some d
    → Moved to_aborted c d × (d ≡ record c { preparations = d.preparations; aborted = d.aborted })
unfolding abort
abort-Moved id c d inv h = elim (Option-cases (take_out id c.preparations)) [
  | inl off ↦ absurd (ground arith)
  | inr ((s, rest), on) ↦
      let was = phase_of_fresh id c.preparations s rest on inv.fresh in
      let e : d ≡ record c {
        preparations = rest;
        aborted = c.aborted ++ record s { phase = settled } ∷ [];
      } =
        ground arith in
      (
        record {
          session = s;
          phase = settled;
          enabled = rw was.0 refl;
          fresh = rw e (was.1 ∙ sym inv.fresh);
          counts = λ p. rw e (
              omega (
                arith,
                take_out-count id c.preparations s rest p on,
                count_of-append p c.aborted (record s { phase = settled } ∷ []),
                count_of_one p (record s { phase = settled }),
              ));
        },
        rw e refl,
      )
]

pub change_queue-Moved :
    (next : SyncSessionKind → Phase → Option Phase) (id : ℕ) (c : SyncCoordinator)
    (queue : List Session) (d : SyncCoordinator)
    → change next id c.queue ≡ some queue
    → d.preparations ≡ c.preparations
    → d.queue ≡ queue
    → d.aborted ≡ c.aborted
    → Moved next c d
change_queue-Moved next id c queue d on a b e =
    let ch = change-Changed next id c.queue queue on in
    record {
      session = ch.session;
      phase = ch.phase;
      enabled = ch.enabled;
      fresh = rw a refl;
      counts = λ p. rw (a, b, e) (omega (arith, ch.counts p));
    }

pub change_settled-Moved :
    (next : SyncSessionKind → Phase → Option Phase) (id : ℕ) (c d : SyncCoordinator)
    → change_settled next id c ≡ some d
    → (m : Moved next c d) × (d ≡ record c { queue = d.queue; aborted = d.aborted })
      × (m.session.id ≡ id)
unfolding change_settled change_queue-Moved
change_settled-Moved next id c d h = elim (Option-cases (change next id c.queue)) [
  | inr (queue, on) ↦
      let e : d ≡ record c { queue = queue } = ground arith in
      (
        change_queue-Moved next id c queue d on (rw e refl) (rw e refl) (rw e refl),
        rw e refl,
        (change-Changed next id c.queue queue on).same_id,
      )
  | inl off ↦ elim (Option-cases (change next id c.aborted)) [
    | inl none_too ↦ absurd (ground arith)
    | inr (aborted, on) ↦
        let e : d ≡ record c { aborted = aborted } = ground arith in
        let ch = change-Changed next id c.aborted aborted on in
        (
          record {
            session = ch.session;
            phase = ch.phase;
            enabled = ch.enabled;
            fresh = rw e refl;
            counts = λ p. rw e (omega (arith, ch.counts p));
          },
          rw e refl,
          ch.same_id,
        )
  ]
]

pub start_session-Moved :
    (id : ℕ) (c d : SyncCoordinator)
    → start_session id c ≡ some d
    → Moved to_active c d × (d ≡ record c { queue = d.queue; active_session = d.active_session })
unfolding start_session
start_session-Moved id c d h = elim (Option-cases (start_in true id c.queue)) [
  | inl off ↦ absurd (ground arith)
  | inr ((s, queue), on) ↦
      let e : d ≡ record c { queue = queue; active_session = some (s.id, s.kind) } = ground arith in
      (
        record {
          session = s;
          phase = active;
          enabled = ground (arith, (start_in-count true id c.queue s queue is_begun on).1);
          fresh = rw e refl;
          counts = λ p. rw e (omega (arith, (start_in-count true id c.queue s queue p on).0));
        },
        rw e refl,
      )
]
