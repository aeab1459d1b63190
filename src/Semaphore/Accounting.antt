-- ===== src/Semaphore/Accounting.antt =====
-- Every task of a run waits, holds a permit, or has its result.
use obsidian_yandex_disk_syn.Common.{
  ℕ, ◌+◌, ◌<◌, ◌≡◌, inl, inr, Bool, true, ◌||◌, List, [], ◌∷◌, arith, is_some, ◌==◌, nat_eq,
  bool_eq, option_eq, list_eq, Option-cases, has,
}
use obsidian_yandex_disk_syn.Common.Dict.{lookup, insert, lookup-insert}
use obsidian_yandex_disk_syn.Semaphore.{
  acquire, release, release_to, TaskResult, rejected, Run, remove, to_list, launch, launch_all,
  hand_over, resume, stop_after, settle, begin, Step, resumed, settled, Reachable, launched,
  stepped,
}
use obsidian_yandex_disk_syn.Semaphore.Bounds.{
  has-append, has-remove, has-release_to, concurrency_bound,
}

module _ {V R : Type 0} where
  -- A task waits, holds a permit, or has its result.
  abbrev accounted : Run V R → ℕ → Bool
  accounted r task =
      has r.semaphore.waiting task
      || has r.granted task
      || has r.running task
      || is_some (lookup task r.results)

  launch-accounted :
      (r : Run V R) (task other : ℕ)
      → accounted (launch r task) other ≡ (accounted r other || other == task)
  unfolding launch acquire
  launch-accounted r task other = ground (
    arith,
    has-append r.granted (task ∷ []) other,
    has-append r.semaphore.waiting (task ∷ []) other,
  )

  launch_all-accounted :
      (r : Run V R) (tasks : List ℕ) (other : ℕ)
      → (accounted r other || has tasks other) ≡ true
      → accounted (launch_all r tasks) other ≡ true
  unfolding launch_all
  launch_all-accounted r [] other h = ground arith
  launch_all-accounted r (task ∷ tasks) other h =
      launch_all-accounted (launch r task) tasks other
        (ground (arith, launch-accounted r task other))

  hand_over-accounted :
      (r : Run V R) (other : ℕ) → accounted r other ≡ true → accounted (hand_over r) other ≡ true
  unfolding hand_over release
  hand_over-accounted r other h = ground (
    arith,
    has-append r.granted (to_list (release_to r.semaphore.permits r.semaphore.waiting).1) other,
    has-release_to r.semaphore.permits r.semaphore.waiting other,
  )

  resume-accounted :
      (r : Run V R) (task other : ℕ)
      → accounted r other ≡ true
      → accounted (resume r task) other ≡ true
  unfolding resume
  resume-accounted r task other h = elim (Option-cases r.stop_reason) [
    | inl e ↦
        rw (resume, e)
          (ground (arith, has-remove task other r.granted, has-append r.running (task ∷ []) other))
    | inr (reason, e) ↦
        let turned_away : TaskResult V R = rejected reason in
        let next : Run V R = record r {
          granted = remove task r.granted;
          results = insert task turned_away r.results;
        } in
        rw (resume, e)
          (hand_over-accounted next other (
            ground (
              arith,
              has-remove task other r.granted,
              lookup-insert other task turned_away r.results,
            )))
  ]

  settle-accounted :
      (stop_on_error : R → Bool) (r : Run V R) (task : ℕ) (result : TaskResult V R) (other : ℕ)
      → accounted r other ≡ true
      → accounted (settle stop_on_error r task result) other ≡ true
  unfolding settle
  settle-accounted stop_on_error r task result other h =
      let next : Run V R = record r {
        running = remove task r.running;
        results = insert task result r.results;
        completed = r.completed + 1;
        stop_reason = stop_after stop_on_error r.stop_reason result;
      } in
      hand_over-accounted next other
        (ground (arith, has-remove task other r.running, lookup-insert other task result r.results))

  Step-accounted :
      (stop_on_error : R → Bool) (before after : Run V R) (task : ℕ)
      → Step stop_on_error before after
      → accounted before task ≡ true
      → accounted after task ≡ true
  Step-accounted stop_on_error before after task (resumed r other g) h =
      resume-accounted r other task h
  Step-accounted stop_on_error before after task (settled r other result g) h =
      settle-accounted stop_on_error r other result task h

  Reachable-accounted :
      (stop_on_error : R → Bool) (concurrency : ℕ) (tasks : List ℕ) (r : Run V R) (task : ℕ)
      → has tasks task ≡ true
      → Reachable stop_on_error concurrency tasks r
      → accounted r task ≡ true
  unfolding begin lookup
  Reachable-accounted stop_on_error concurrency tasks r task t launched =
      launch_all-accounted (begin concurrency) tasks task (ground arith)
  Reachable-accounted stop_on_error concurrency tasks r task t (stepped before after step h) =
      Step-accounted stop_on_error before after task step
        (Reachable-accounted stop_on_error concurrency tasks before task t h)

  -- A run with a concurrency above zero gets stuck only at its end: when no task holds a permit, none
  -- waits either, and every task has its result.
  pub no_task_lost :
      (stop_on_error : R → Bool) (concurrency : ℕ) (tasks : List ℕ) (r : Run V R) (task : ℕ)
      → 0 < concurrency
      → Reachable stop_on_error concurrency tasks r
      → r.granted ≡ []
      → r.running ≡ []
      → has tasks task ≡ true
      → (r.semaphore.waiting ≡ []) × (is_some (lookup task r.results) ≡ true)
  no_task_lost stop_on_error concurrency tasks r task positive h g k t =
      let bound = (concurrency_bound concurrency stop_on_error tasks r h).1 in
      let idle : r.semaphore.waiting ≡ [] = ground arith in
      let a = Reachable-accounted stop_on_error concurrency tasks r task t h in (idle, ground arith)
