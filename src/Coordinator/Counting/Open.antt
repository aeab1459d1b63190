-- ===== src/Coordinator/Counting/Open.antt =====
-- What the counters count: outstanding sessions and open full sessions.
use obsidian_yandex_disk_syn.Common.{
  ℕ, ◌+◌, ◌≡◌, refl, Bool, true, false, not, ◌&&◌, Option, some, List, [], ◌∷◌, arith, is_some,
  ◌!=◌, nat_eq, bool_eq, option_eq, list_eq,
}
use obsidian_yandex_disk_syn.Coordinator.{
  is_full, Phase, preparing, released, closed, Session, SyncCoordinator,
}
use obsidian_yandex_disk_syn.Coordinator.Changes.{bit, count_of}

-- How many of all sessions a test accepts.
abbrev pub total : (Session → Bool) → SyncCoordinator → ℕ
total p c = count_of p c.preparations + count_of p c.queue + count_of p c.aborted

-- `run` has not yet given its pending work back.
abbrev pub is_out : Phase → Bool
is_out released = false
is_out closed = false
is_out _ = true

abbrev pub is_outstanding : Session → Bool
is_outstanding s = is_out s.phase

abbrev pub is_closed : Phase → Bool
is_closed closed = true
is_closed _ = false

-- A full session whose shared promise is not yet cleared.
abbrev pub is_open_full : Session → Bool
is_open_full s = is_full s.kind && not (is_closed s.phase)

-- A full session that new full requests would not join.
abbrev pub is_stray : Option ℕ → Session → Bool
is_stray pending s = is_full s.kind && not (is_closed s.phase) && pending != some s.id

abbrev pub is_begun : Session → Bool
is_begun s = elim s.phase [ preparing ↦ false | _ ↦ true ]

pub record Inv (c : SyncCoordinator) : Type 0 where
  pub fresh : count_of is_begun c.preparations ≡ 0
  pub work : c.pending_work ≡ total is_outstanding c
  pub one_full : total is_open_full c ≡ bit (is_some c.pending_full)
  pub joined : total (is_stray c.pending_full) c ≡ 0

pub count_of_one : (p : Session → Bool) (s : Session) → count_of p (s ∷ []) ≡ bit (p s)
unfolding count_of
count_of_one p s = omega arith

-- A list with no session of a kind has none that is astray.
pub stray_of_none :
    (pending : Option ℕ) (xs : List Session)
    → count_of is_open_full xs ≡ 0
    → count_of (is_stray pending) xs ≡ 0
unfolding count_of
stray_of_none pending [] h = refl
stray_of_none pending (s ∷ xs) h =
    let rest = stray_of_none pending xs (ground arith) in ground (arith, rest)

pub total_stray_of_none :
    (pending : Option ℕ) (c : SyncCoordinator)
    → total is_open_full c ≡ 0
    → total (is_stray pending) c ≡ 0
total_stray_of_none pending c h = omega (
  arith,
  stray_of_none pending c.preparations (omega arith),
  stray_of_none pending c.queue (omega arith),
  stray_of_none pending c.aborted (omega arith),
)
