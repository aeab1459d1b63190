-- ===== src/Coordinator/Fifo/Handover.antt =====
-- The edges that hand the lock over: the start and the end of a session's body.
use obsidian_yandex_disk_syn.Common.{
  ℕ, ◌≡◌, refl, inl, inr, Bool, true, false, none, some, List, [], ◌∷◌, ◌++◌, arith, ◌==◌, nat_eq,
  bool_eq, option_eq, list_eq, Bool-cases, Option-cases,
}
use obsidian_yandex_disk_syn.Coordinator.{
  active, settled, Session, change, is_settled, is_ready, start_in, finish_body,
}
use obsidian_yandex_disk_syn.Coordinator.Fifo.{
  waiters_of, running_of, served_of, is_waiting, AllWaiting, Serial, AllWaiting-lock,
  AllWaiting-Serial,
}

-- No session of a waiting chain can finish.
change-AllWaiting :
    (id : ℕ) (xs ys : List Session) → change finish_body id xs ≡ some ys → AllWaiting xs → ⊥
unfolding change
change-AllWaiting id [] ys h w = cc
change-AllWaiting id (s ∷ rest) ys h w = elim (Option-cases (change finish_body id rest)) [
  | inl off ↦ ground arith
  | inr (rest', on) ↦ ground (arith, change-AllWaiting id rest rest' on w.1)
]

-- The one running session becomes the last served.
pub record Left (xs ys : List Session) : Type 0 where
  pub id : ℕ
  pub serial : Serial ys
  pub ran : running_of xs ≡ some id
  pub free : running_of ys ≡ none
  pub waiters : waiters_of ys ≡ waiters_of xs
  pub served : served_of ys ≡ served_of xs ++ id ∷ []

pub change-Left :
    (id : ℕ) (xs ys : List Session) → change finish_body id xs ≡ some ys → Serial xs → Left xs ys
unfolding change
change-Left id [] ys h w = absurd (cc)
change-Left id (s ∷ rest) ys h w = elim (Bool-cases (s.id == id)) [
  | inl this ↦ elim (Option-cases (finish_body s.kind s.phase)) [
    | inl off ↦ absurd (ground arith)
    | inr (phase, on) ↦
        let e : ys ≡ record s { phase = phase } ∷ rest = ground arith in
        let still : (s.phase ≡ active) × (phase ≡ settled) × AllWaiting rest = ground arith in
        let l = AllWaiting-lock rest still.2 in
        rw e (record {
          id = s.id;
          serial = inl (ground arith, AllWaiting-Serial rest still.2);
          ran = ground arith;
          free = ground (arith, l);
          waiters = ground (arith, l);
          served = ground (arith, l);
        })
  ]
  | inr other ↦ elim (Option-cases (change finish_body id rest)) [
    | inl off ↦ absurd (ground arith)
    | inr (rest', on) ↦
        let e : ys ≡ s ∷ rest' = ground arith in
        elim w [
          | inl a ↦
              let ih = change-Left id rest rest' on a.1 in
              rw e (record {
                id = ih.id;
                serial = inl (a.0, ih.serial);
                ran = ground (arith, ih.ran);
                free = ground (arith, ih.free);
                waiters = ground (arith, ih.waiters);
                served = ground (arith, ih.served);
              })
          | inr b ↦
              absurd (change-AllWaiting id rest rest' on (elim b [ inl c ↦ c.1 | inr d ↦ d.1 ]))
        ]
  ]
]

-- Behind an unsettled session none can start.
start_in-blocked :
    (id : ℕ) (xs : List Session) (s : Session) (ys : List Session)
    → start_in false id xs ≡ some (s, ys)
    → AllWaiting xs
    → ⊥
unfolding start_in
start_in-blocked id [] s ys h w = cc
start_in-blocked id (x ∷ rest) s ys h w =
    let unsettled : is_settled x.phase ≡ false = ground arith in
    elim (Option-cases (start_in false id rest)) [
      | inl off ↦ ground arith
      | inr ((t, rest'), on) ↦ ground (arith, start_in-blocked id rest t rest' on w.1)
    ]

-- The first waiting session becomes the running one.
pub record Started (xs : List Session) (s : Session) (ys : List Session) : Type 0 where
  pub serial : Serial ys
  pub free : running_of xs ≡ none
  pub runs : running_of ys ≡ some s.id
  pub waiters : waiters_of xs ≡ s.id ∷ waiters_of ys
  pub served : served_of ys ≡ served_of xs

pub start_in-Started :
    (free : Bool) (id : ℕ) (xs : List Session) (s : Session) (ys : List Session)
    → free ≡ true
    → start_in free id xs ≡ some (s, ys)
    → Serial xs
    → Started xs s ys
unfolding start_in
start_in-Started free id [] s ys f h w = absurd (cc)
start_in-Started free id (x ∷ rest) s ys f h w = elim (Bool-cases (x.id == id)) [
  | inl this ↦ elim (Bool-cases (is_ready x.phase)) [
    | inl on ↦
        let e : (x ≡ s) × (record x { phase = active } ∷ rest ≡ ys) = ground arith in
        let still : (is_waiting x.phase ≡ true) × AllWaiting rest = ground arith in
        let l = AllWaiting-lock rest still.1 in
        rw (← e.0, ← e.1)
          (record {
            serial = inr (inr (refl, still.1));
            free = ground (arith, l);
            runs = refl;
            waiters = ground arith;
            served = ground arith;
          })
    | inr off ↦ absurd (ground arith)
  ]
  | inr other ↦ elim (Option-cases (start_in (is_settled x.phase) id rest)) [
    | inl off ↦ absurd (ground arith)
    | inr ((t, rest'), on) ↦
        let e : (t ≡ s) × (x ∷ rest' ≡ ys) = ground arith in
        elim w [
          | inl a ↦
              let ih = start_in-Started (is_settled x.phase) id rest t rest' a.0 on a.1 in
              rw (← e.0, ← e.1)
                (record {
                  serial = inl (a.0, ih.serial);
                  free = ground (arith, ih.free);
                  runs = ground (arith, ih.runs);
                  waiters = ground (arith, ih.waiters);
                  served = ground (arith, ih.served);
                })
          | inr b ↦
              let rest_waits : AllWaiting rest = elim b [ inl c ↦ c.1 | inr d ↦ d.1 ] in
              let unsettled : is_settled x.phase ≡ false = ground arith in
              absurd (start_in-blocked id rest t rest' (rw unsettled at on) rest_waits)
        ]
  ]
]
