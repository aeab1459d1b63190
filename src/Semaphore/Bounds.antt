-- ===== src/Semaphore/Bounds.antt =====
-- The bound on concurrent tasks, and that no task is lost.
use obsidian_yandex_disk_syn.Common.{
  ℕ, ◌+◌, ◌≤◌, ◌≡◌, refl, ◌≢◌, ◌⊎◌, inl, inr, Bool, true, ◌||◌, List, [], ◌∷◌, ◌++◌, arith, nat_eq,
  bool_eq, option_eq, list_eq, Option-cases, length, length-append, has,
}
use obsidian_yandex_disk_syn.Semaphore.{
  acquire, release, release_to, TaskResult, Run, remove, to_list, launch, launch_all, hand_over,
  resume, settle, begin, Step, resumed, settled, Reachable, launched, stepped,
}

pub length-remove :
    (task : ℕ) (tasks : List ℕ)
    → has tasks task ≡ true
    → length (remove task tasks) + 1 ≡ length tasks
unfolding remove
length-remove task [] h = cc
length-remove task (other ∷ tasks) h = ground (arith, length-remove task tasks)

pub has-remove :
    (task other : ℕ) (tasks : List ℕ)
    → other ≢ task
    → has (remove task tasks) other ≡ has tasks other
unfolding remove
has-remove task other [] h = refl
has-remove task other (x ∷ tasks) h = ground (arith, has-remove task other tasks h)

pub has-append : (xs ys : List ℕ) (task : ℕ) → has (xs ++ ys) task ≡ (has xs task || has ys task)
has-append [] ys task = refl
has-append (x ∷ xs) ys task = ground (arith, has-append xs ys task)

release_to_lem :
    (permits : ℕ) (waiting : List ℕ)
    → (permits ≡ 0) ⊎ (waiting ≡ [])
    → let (s, woken) = release_to permits waiting in
      (s.permits + length (to_list woken) ≡ permits + 1) × ((s.permits ≡ 0) ⊎ (s.waiting ≡ []))
release_to_lem permits [] busy = (omega arith, inr refl)
release_to_lem permits (task ∷ tasks) busy = (omega arith, ground arith)

pub has-release_to :
    (permits : ℕ) (waiting : List ℕ) (task : ℕ)
    → has waiting task ≡ (
        has (release_to permits waiting).0.waiting task
        || has (to_list (release_to permits waiting).1) task)
has-release_to permits [] task = refl
has-release_to permits (other ∷ tasks) task = ground arith

module _ {V R : Type 0} (concurrency : ℕ) where
  -- Every permit is free or held, and none is free while a task waits.
  pub record Balanced (r : Run V R) : Type 0 where
    pub held : r.semaphore.permits + length r.granted + length r.running ≡ concurrency
    pub busy : (r.semaphore.permits ≡ 0) ⊎ (r.semaphore.waiting ≡ [])

  launch-Balanced : (r : Run V R) (task : ℕ) → Balanced r → Balanced (launch r task)
  unfolding launch acquire
  launch-Balanced r task h =
      let held = h.held in
      let busy = h.busy in
      let grown = length-append r.granted (task ∷ []) in
      record { held = ground arith; busy = ground arith }

  launch_all-Balanced : (r : Run V R) (tasks : List ℕ) → Balanced r → Balanced (launch_all r tasks)
  unfolding launch_all
  launch_all-Balanced r [] h = h
  launch_all-Balanced r (task ∷ tasks) h =
      launch_all-Balanced (launch r task) tasks (launch-Balanced r task h)

  -- The same, with one permit about to be released.
  hand_over-Balanced :
      (r : Run V R)
      → r.semaphore.permits + length r.granted + length r.running + 1 ≡ concurrency
      → (r.semaphore.permits ≡ 0) ⊎ (r.semaphore.waiting ≡ [])
      → Balanced (hand_over r)
  unfolding hand_over release
  hand_over-Balanced r held busy =
      let woken = to_list (release_to r.semaphore.permits r.semaphore.waiting).1 in
      let grown = length-append r.granted woken in
      let (sum, idle) = release_to_lem r.semaphore.permits r.semaphore.waiting busy in
      record { held = omega arith; busy = idle }

  resume-Balanced :
      (r : Run V R) (task : ℕ) → has r.granted task ≡ true → Balanced r → Balanced (resume r task)
  unfolding resume
  resume-Balanced r task g h =
      let held = h.held in
      let busy = h.busy in
      let less = length-remove task r.granted g in
      let grown = length-append r.running (task ∷ []) in
      elim (Option-cases r.stop_reason) [
        | inl e ↦ rw (resume, e) (record { held = omega arith; busy = busy })
        | inr (reason, e) ↦ rw (resume, e) (hand_over-Balanced _ (omega arith) busy)
      ]

  settle-Balanced :
      (stop_on_error : R → Bool) (r : Run V R) (task : ℕ) (result : TaskResult V R)
      → has r.running task ≡ true
      → Balanced r
      → Balanced (settle stop_on_error r task result)
  unfolding settle
  settle-Balanced stop_on_error r task result g h =
      let held = h.held in
      let less = length-remove task r.running g in hand_over-Balanced _ (omega arith) h.busy

  Step-Balanced :
      (stop_on_error : R → Bool) (before after : Run V R)
      → Step stop_on_error before after
      → Balanced before
      → Balanced after
  Step-Balanced stop_on_error before after (resumed r task g) h = resume-Balanced r task g h
  Step-Balanced stop_on_error before after (settled r task result g) h =
      settle-Balanced stop_on_error r task result g h

  Reachable-Balanced :
      (stop_on_error : R → Bool) (tasks : List ℕ) (r : Run V R)
      → Reachable stop_on_error concurrency tasks r
      → Balanced r
  unfolding begin
  Reachable-Balanced stop_on_error tasks r launched =
      launch_all-Balanced (begin concurrency) tasks (record { held = omega arith; busy = inr refl })
  Reachable-Balanced stop_on_error tasks r (stepped before after step h) =
      Step-Balanced stop_on_error before after step
        (Reachable-Balanced stop_on_error tasks before h)

  -- At every moment of a run the tasks that hold a permit, running or about to go on, are at most as
  -- many as the concurrency; no task waits, or exactly that many hold one.
  pub concurrency_bound :
      (stop_on_error : R → Bool) (tasks : List ℕ) (r : Run V R)
      → Reachable stop_on_error concurrency tasks r
      → (length r.granted + length r.running ≤ concurrency)
        × ((r.semaphore.waiting ≡ []) ⊎ (length r.granted + length r.running ≡ concurrency))
  concurrency_bound stop_on_error tasks r h =
      let b = Reachable-Balanced stop_on_error tasks r h in
      let held = b.held in let busy = b.busy in (omega arith, ground arith)
