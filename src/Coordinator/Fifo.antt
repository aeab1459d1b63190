-- ===== src/Coordinator/Fifo.antt =====
-- The coordinator as a lock with a queue: sessions are served one at a time, in the order in which
-- they were enqueued.
pub mod Quiet
pub mod Handover
use obsidian_yandex_disk_syn.Common.{
  ℕ, ◌≡◌, refl, ◌⊎◌, inl, inr, Bool, true, false, ◌||◌, Option, none, some, List, [], ◌∷◌, ◌++◌,
  arith, if◌then◌else◌, ◌==◌, nat_eq, bool_eq, option_eq, list_eq, Bool-cases, Option-cases,
}
use obsidian_yandex_disk_syn.Coordinator.{
  SyncSessionKind, full, force, realtime, maintenance, Phase, preparing, waiting, active, settled,
  released, closed, Session, change, is_settled, is_ready, start_in, hook_return, finish_body,
  to_released, to_closed,
}

-- The lock that the coordinator promises: who waits, who runs, and who has run, in order.
pub record FifoLock : Type 0 where
  pub waiters : List ℕ
  pub running : Option ℕ
  pub served : List ℕ

-- A step of the lock.
pub data LockStep (l m : FifoLock) : Type 0 where
  arrive : (id : ℕ) → m ≡ record l { waiters = l.waiters ++ id ∷ [] } → LockStep l m
  take_lock :
      (id : ℕ) (rest : List ℕ)
      → l.waiters ≡ id ∷ rest
      → l.running ≡ none
      → m ≡ record l { waiters = rest; running = some id }
      → LockStep l m
  leave :
      (id : ℕ)
      → l.running ≡ some id
      → m ≡ record l { running = none; served = l.served ++ id ∷ [] }
      → LockStep l m

pub data LockReach (l : FifoLock) : FifoLock → Type 0 where
  stay : LockReach l l
  more : {m n : FifoLock} → LockReach l m → LockStep m n → LockReach l n

-- The lock that a promise chain stands for.
abbrev pub waiters_of : List Session → List ℕ
waiters_of [] = []
waiters_of (s ∷ rest) = elim s.phase [
  | waiting hooked ↦ s.id ∷ waiters_of rest
  | _ ↦ waiters_of rest
]

abbrev pub running_of : List Session → Option ℕ
running_of [] = none
running_of (s ∷ rest) = elim s.phase [ active ↦ some s.id | _ ↦ running_of rest ]

abbrev pub served_of : List Session → List ℕ
served_of [] = []
served_of (s ∷ rest) = if is_settled s.phase then s.id ∷ served_of rest else served_of rest

abbrev pub lock_of : List Session → FifoLock
lock_of queue = record {
  waiters = waiters_of queue;
  running = running_of queue;
  served = served_of queue;
}

abbrev pub is_waiting : Phase → Bool
is_waiting (waiting hooked) = true
is_waiting _ = false

abbrev pub AllWaiting : List Session → Type 0
AllWaiting [] = Unit
AllWaiting (s ∷ rest) = (is_waiting s.phase ≡ true) × AllWaiting rest

-- Settled sessions come first; of the others only the first may have started.
abbrev pub Serial : List Session → Type 0
Serial [] = Unit
Serial (s ∷ rest) =
    ((is_settled s.phase ≡ true) × Serial rest)
    ⊎ ((is_waiting s.phase ≡ true) × AllWaiting rest)
    ⊎ ((s.phase ≡ active) × AllWaiting rest)

pub AllWaiting-lock :
    (xs : List Session) → AllWaiting xs → (running_of xs ≡ none) × (served_of xs ≡ [])
AllWaiting-lock [] h = (refl, refl)
AllWaiting-lock (s ∷ xs) h = ground (arith, AllWaiting-lock xs h.1)

pub AllWaiting-Serial : (xs : List Session) → AllWaiting xs → Serial xs
AllWaiting-Serial [] h = tt
AllWaiting-Serial (s ∷ xs) h = inr (inl h)

AllWaiting-append :
    (xs : List Session) (s : Session)
    → AllWaiting xs
    → is_waiting s.phase ≡ true
    → AllWaiting (xs ++ s ∷ [])
AllWaiting-append [] s h w = (w, tt)
AllWaiting-append (x ∷ xs) s h w = (h.0, AllWaiting-append xs s h.1 w)

pub Serial-append :
    (xs : List Session) (s : Session)
    → Serial xs
    → is_waiting s.phase ≡ true
    → Serial (xs ++ s ∷ [])
Serial-append [] s h w = inr (inl (w, tt))
Serial-append (x ∷ xs) s (inl h) w = inl (h.0, Serial-append xs s h.1 w)
Serial-append (x ∷ xs) s (inr (inl h)) w = inr (inl (h.0, AllWaiting-append xs s h.1 w))
Serial-append (x ∷ xs) s (inr (inr h)) w = inr (inr (h.0, AllWaiting-append xs s h.1 w))

pub lock-append :
    (xs : List Session) (s : Session)
    → is_waiting s.phase ≡ true
    → (waiters_of (xs ++ s ∷ []) ≡ waiters_of xs ++ s.id ∷ [])
      × (running_of (xs ++ s ∷ []) ≡ running_of xs)
      × (served_of (xs ++ s ∷ []) ≡ served_of xs)
lock-append [] s w = ground arith
lock-append (x ∷ xs) s w = ground (arith, lock-append xs s w)
