-- ===== src/Coordinator/Fifo/Quiet.antt =====
-- The edges of a session that do not concern the lock: the return of `onQueued` and the settlement.
use obsidian_yandex_disk_syn.Common.{
  ℕ, ◌≡◌, inl, inr, true, false, ◌||◌, Option, some, List, [], ◌∷◌, arith, ◌==◌, nat_eq, bool_eq,
  option_eq, list_eq, Bool-cases, Option-cases,
}
use obsidian_yandex_disk_syn.Coordinator.{
  SyncSessionKind, full, force, realtime, maintenance, Phase, preparing, waiting, active, settled,
  released, closed, Session, change, is_settled, hook_return, to_released, to_closed,
}
use obsidian_yandex_disk_syn.Coordinator.Fifo.{
  waiters_of, running_of, served_of, is_waiting, AllWaiting, Serial,
}

-- A change that leaves every session on its side of the lock.
abbrev pub Quiet : (SyncSessionKind → Phase → Option Phase) → Type 0
Quiet next =
    (kind : SyncSessionKind) (a b : Phase)
    → next kind a ≡ some b
    → (is_waiting a ≡ is_waiting b)
      × (is_settled a ≡ is_settled b)
      × ((is_waiting a || is_settled a) ≡ true)

module _ (next : SyncSessionKind → Phase → Option Phase) (quiet : Quiet next) where
  -- All that a quiet change of a chain leaves as it was.
  pub record Same (xs ys : List Session) : Type 0 where
    pub waiting_too : AllWaiting xs → AllWaiting ys
    pub serial_too : Serial xs → Serial ys
    pub waiters : waiters_of ys ≡ waiters_of xs
    pub running : running_of ys ≡ running_of xs
    pub served : served_of ys ≡ served_of xs

  pub change-Same : (id : ℕ) (xs ys : List Session) → change next id xs ≡ some ys → Same xs ys
  unfolding change
  change-Same id [] ys h = absurd (cc)
  change-Same id (s ∷ rest) ys h = elim (Bool-cases (s.id == id)) [
    | inl this ↦ elim (Option-cases (next s.kind s.phase)) [
      | inl off ↦ absurd (ground arith)
      | inr (phase, on) ↦
          let e : ys ≡ record s { phase = phase } ∷ rest = ground arith in
          let q = quiet s.kind s.phase phase on in
          rw e (record {
            waiting_too = λ w. ground (arith, q);
            serial_too = λ w. ground (arith, q);
            waiters = ground (arith, q);
            running = ground (arith, q);
            served = ground (arith, q);
          })
    ]
    | inr other ↦ elim (Option-cases (change next id rest)) [
      | inl off ↦ absurd (ground arith)
      | inr (rest', on) ↦
          let e : ys ≡ s ∷ rest' = ground arith in
          let ih = change-Same id rest rest' on in
          rw e (record {
            waiting_too = λ w. (w.0, ih.waiting_too w.1);
            serial_too = λ w. elim w [
              | inl a ↦ inl (a.0, ih.serial_too a.1)
              | inr b ↦ elim b [
                | inl c ↦ inr (inl (c.0, ih.waiting_too c.1))
                | inr d ↦ inr (inr (d.0, ih.waiting_too d.1))
              ]
            ];
            waiters = ground (arith, ih.waiters);
            running = ground (arith, ih.running);
            served = ground (arith, ih.served);
          })
    ]
  ]

pub hook_return-Quiet : Quiet hook_return
hook_return-Quiet kind (waiting false) b h = ground arith
hook_return-Quiet kind (waiting true) b h = cc
hook_return-Quiet kind preparing b h = cc
hook_return-Quiet kind active b h = cc
hook_return-Quiet kind settled b h = cc
hook_return-Quiet kind released b h = cc
hook_return-Quiet kind closed b h = cc

pub to_released-Quiet : Quiet to_released
to_released-Quiet kind settled b h = ground arith
to_released-Quiet kind (waiting hooked) b h = cc
to_released-Quiet kind preparing b h = cc
to_released-Quiet kind active b h = cc
to_released-Quiet kind released b h = cc
to_released-Quiet kind closed b h = cc

pub to_closed-Quiet : Quiet to_closed
to_closed-Quiet full released b h = ground arith
to_closed-Quiet full (waiting hooked) b h = cc
to_closed-Quiet full preparing b h = cc
to_closed-Quiet full active b h = cc
to_closed-Quiet full settled b h = cc
to_closed-Quiet full closed b h = cc
to_closed-Quiet force a b h = cc
to_closed-Quiet realtime a b h = cc
to_closed-Quiet maintenance a b h = cc
