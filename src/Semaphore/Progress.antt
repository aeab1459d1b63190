-- ===== src/Semaphore/Progress.antt =====
-- The steps that a run has left.
use obsidian_yandex_disk_syn.Common.{
  ℕ, ◌+◌, ◌<◌, ◌≡◌, inl, inr, Bool, true, List, [], ◌∷◌, arith, nat_eq, bool_eq, option_eq, list_eq,
  Option-cases, length, length-append, has,
}
use obsidian_yandex_disk_syn.Common.Dict.{insert}
use obsidian_yandex_disk_syn.Semaphore.{
  acquire, release, release_to, TaskResult, rejected, Run, remove, to_list, launch, launch_all,
  hand_over, resume, stop_after, settle, begin, Step, resumed, settled,
}
use obsidian_yandex_disk_syn.Semaphore.Bounds.{length-remove}

length-release_to :
    (permits : ℕ) (waiting : List ℕ)
    → length waiting
      ≡ length (release_to permits waiting).0.waiting
        + length (to_list (release_to permits waiting).1)
length-release_to permits [] = omega arith
length-release_to permits (task ∷ tasks) = omega arith

module _ {V R : Type 0} where
  -- A task that has not gone on has two steps to take, a running one has one.
  abbrev pub remaining : Run V R → ℕ
  remaining r =
      (length r.semaphore.waiting + length r.granted)
      + (length r.semaphore.waiting + length r.granted)
      + length r.running

  launch-remaining : (r : Run V R) (task : ℕ) → remaining (launch r task) ≡ remaining r + 2
  unfolding launch acquire
  launch-remaining r task =
      let granted = length-append r.granted (task ∷ []) in
      let waiting = length-append r.semaphore.waiting (task ∷ []) in ground arith

  launch_all-remaining :
      (r : Run V R) (tasks : List ℕ)
      → remaining (launch_all r tasks) ≡ remaining r + (length tasks + length tasks)
  unfolding launch_all
  launch_all-remaining r [] = omega arith
  launch_all-remaining r (task ∷ tasks) =
      omega (arith, launch_all-remaining (launch r task) tasks, launch-remaining r task)

  hand_over-remaining : (r : Run V R) → remaining (hand_over r) ≡ remaining r
  unfolding hand_over release
  hand_over-remaining r =
      let woken = to_list (release_to r.semaphore.permits r.semaphore.waiting).1 in
      let grown = length-append r.granted woken in
      let moved = length-release_to r.semaphore.permits r.semaphore.waiting in omega arith

  resume-remaining :
      (r : Run V R) (task : ℕ) → has r.granted task ≡ true → remaining (resume r task) < remaining r
  unfolding resume
  resume-remaining r task h =
      let less = length-remove task r.granted h in
      let grown = length-append r.running (task ∷ []) in
      elim (Option-cases r.stop_reason) [
        | inl e ↦ rw (resume, e) (omega arith)
        | inr (reason, e) ↦
            let next : Run V R = record r {
              granted = remove task r.granted;
              results = insert task (rejected reason) r.results;
            } in
            rw (resume, e) (omega (arith, hand_over-remaining next))
      ]

  settle-remaining :
      (stop_on_error : R → Bool) (r : Run V R) (task : ℕ) (result : TaskResult V R)
      → has r.running task ≡ true
      → remaining (settle stop_on_error r task result) < remaining r
  unfolding settle
  settle-remaining stop_on_error r task result h =
      let less = length-remove task r.running h in
      let next : Run V R = record r {
        running = remove task r.running;
        results = insert task result r.results;
        completed = r.completed + 1;
        stop_reason = stop_after stop_on_error r.stop_reason result;
      } in
      omega (arith, hand_over-remaining next)

  Step-remaining :
      (stop_on_error : R → Bool) (before after : Run V R)
      → Step stop_on_error before after
      → remaining after < remaining before
  Step-remaining stop_on_error before after (resumed r task g) = resume-remaining r task g
  Step-remaining stop_on_error before after (settled r task result g) =
      settle-remaining stop_on_error r task result g

  -- A run starts with two steps for each task, and each step leaves fewer steps than before.
  pub runs_end :
      (stop_on_error : R → Bool) (concurrency : ℕ) (tasks : List ℕ) (before after : Run V R)
      → Step stop_on_error before after
      → (remaining (launch_all (begin concurrency) tasks) ≡ length tasks + length tasks)
        × (remaining after < remaining before)
  unfolding begin
  runs_end stop_on_error concurrency tasks before after step = (
    omega (arith, launch_all-remaining (begin concurrency) tasks),
    Step-remaining stop_on_error before after step,
  )
