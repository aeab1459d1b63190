-- ===== src/Coordinator/Changes.antt =====
-- What the list operations of the coordinator change.
use obsidian_yandex_disk_syn.Common.{
  ℕ, ◌+◌, ◌≡◌, ap, ◌∙◌, inl, inr, Bool, true, false, ◌&&◌, Option, some, List, [], ◌∷◌, ◌++◌, arith,
  ◌==◌, nat_eq, bool_eq, option_eq, list_eq, Bool-cases, Option-cases, eq_of_test,
}
use obsidian_yandex_disk_syn.Coordinator.{
  SyncSessionKind, Phase, active, Session, change, take_out, is_settled, is_ready, start_in,
}

-- How many sessions of a list a test accepts.
abbrev pub bit : Bool → ℕ
bit true = 1
bit false = 0

unfoldable pub count_of : (Session → Bool) → List Session → ℕ
count_of p [] = 0
count_of p (s ∷ rest) = bit (p s) + count_of p rest

pub count_of-append :
    (p : Session → Bool) (xs ys : List Session)
    → count_of p (xs ++ ys) ≡ count_of p xs + count_of p ys
unfolding count_of
count_of-append p [] ys = omega arith
count_of-append p (x ∷ xs) ys = omega (arith, count_of-append p xs ys)

-- A list after the change of one session, with the session and its new phase.
pub record Changed (next : SyncSessionKind → Phase → Option Phase) (id : ℕ) (xs ys : List Session)
    : Type 0 where
  pub session : Session
  pub phase : Phase
  pub same_id : session.id ≡ id
  pub enabled : next session.kind session.phase ≡ some phase
  pub counts :
      (p : Session → Bool)
      → count_of p ys + bit (p session) ≡ count_of p xs + bit (p (record session { phase = phase }))

pub change-Changed :
    (next : SyncSessionKind → Phase → Option Phase) (id : ℕ) (xs ys : List Session)
    → change next id xs ≡ some ys
    → Changed next id xs ys
unfolding change count_of
change-Changed next id [] ys h = absurd (cc)
change-Changed next id (s ∷ rest) ys h = elim (Bool-cases (s.id == id)) [
  | inl this ↦ elim (Option-cases (next s.kind s.phase)) [
    | inl off ↦ absurd (ground arith)
    | inr (phase, on) ↦ record {
      session = s;
      phase = phase;
      same_id = eq_of_test s.id id this;
      enabled = on;
      counts =
          λ p. let e : ys ≡ record s { phase = phase } ∷ rest = ground arith in rw e (omega arith);
    }
  ]
  | inr other ↦ elim (Option-cases (change next id rest)) [
    | inl off ↦ absurd (ground arith)
    | inr (rest', on) ↦
        let c = change-Changed next id rest rest' on in
        record {
          session = c.session;
          phase = c.phase;
          same_id = c.same_id;
          enabled = c.enabled;
          counts = λ p. let e : ys ≡ s ∷ rest' = ground arith in rw e (omega (arith, c.counts p));
        }
  ]
]

pub take_out-count :
    (id : ℕ) (xs : List Session) (s : Session) (ys : List Session) (p : Session → Bool)
    → take_out id xs ≡ some (s, ys)
    → count_of p ys + bit (p s) ≡ count_of p xs
unfolding take_out count_of
take_out-count id [] s ys p h = absurd (cc)
take_out-count id (x ∷ rest) s ys p h = elim (Bool-cases (x.id == id)) [
  | inl this ↦ let e : (x ≡ s) × (rest ≡ ys) = ground arith in rw (← e.0, ← e.1) (omega arith)
  | inr other ↦ elim (Option-cases (take_out id rest)) [
    | inl off ↦ absurd (ground arith)
    | inr ((t, rest'), on) ↦
        let e : (t ≡ s) × (x ∷ rest' ≡ ys) = ground arith in
        rw (← e.1) (
          omega (
            arith,
            take_out-count id rest s rest' p (on ∙ ap (λ (u : Session). some (u, rest')) e.0),
          ))
  ]
]

pub start_in-count :
    (free : Bool) (id : ℕ) (xs : List Session) (s : Session) (ys : List Session)
    (p : Session → Bool)
    → start_in free id xs ≡ some (s, ys)
    → (count_of p ys + bit (p s) ≡ count_of p xs + bit (p (record s { phase = active })))
      × (is_ready s.phase ≡ true)
unfolding start_in count_of
start_in-count free id [] s ys p h = absurd (cc)
start_in-count free id (x ∷ rest) s ys p h = elim (Bool-cases (x.id == id)) [
  | inl this ↦ elim (Bool-cases (free && is_ready x.phase)) [
    | inl on ↦
        let e : (x ≡ s) × (record x { phase = active } ∷ rest ≡ ys) = ground arith in
        rw (← e.0, ← e.1) ((omega arith, ground arith))
    | inr off ↦ absurd (ground arith)
  ]
  | inr other ↦ elim (Option-cases (start_in (is_settled x.phase) id rest)) [
    | inl off ↦ absurd (ground arith)
    | inr ((t, rest'), on) ↦
        let e : (t ≡ s) × (x ∷ rest' ≡ ys) = ground arith in
        let ih =
          start_in-count (is_settled x.phase) id rest s rest' p
            (on ∙ ap (λ (u : Session). some (u, rest')) e.0) in
        rw (← e.1) ((omega (arith, ih.0), ih.1))
  ]
]
