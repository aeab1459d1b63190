-- ===== src/Semaphore.antt =====
-- src/utils/semaphore.ts: `Semaphore` and `runWithConcurrencySettled`, with tasks as the places of the
-- task list and the answers of the tasks as steps.
pub mod Bounds
pub mod Accounting
pub mod Progress
use obsidian_yandex_disk_syn.Common.{
  ℕ, zero, suc, ◌+◌, ◌-◌, ◌≤◌, ◌<◌, ◌≡◌, refl, sym, ap, ◌∙◌, subst, ◌≢◌, ◌↔◌, ◌⊎◌, inl, inr, Bool,
  true, false, not, ◌&&◌, ◌||◌, Option, none, some, List, [], ◌∷◌, ◌++◌, map, arith, ltb, leb,
  if◌then◌else◌, get_or, truthy, truthy_list, is_some, ◌==◌, ◌!=◌, nat_eq, bool_eq, option_eq,
  list_eq, Bool-cases, Option-cases, length, length-append, any, all, filter, find, last, All, Some,
  has, eq_of_test, test_self, Eq, max, min,
}
use obsidian_yandex_disk_syn.Common.Text.{
  Text, codes, strip_prefix, starts_with, strip_prefix-append, append-strip_prefix, trim_slashes,
  split_slash, join_slash,
}
use obsidian_yandex_disk_syn.Common.Dict.{
  Dict, lookup, insert, erase, NodupKeys, lookup-insert, lookup-insert_self, lookup-erase,
}

pub record Semaphore : Type 0 where
  pub permits : ℕ
  pub waiting : List ℕ

-- `acquire`, and whether its promise is resolved at once.
unfoldable pub acquire : Semaphore → ℕ → Semaphore × Bool
acquire s task =
    if ltb 0 s.permits
    then (record s { permits = s.permits - 1 }, true)
    else (record s { waiting = s.waiting ++ task ∷ [] }, false)

-- `release`, and the waiter that it resolves.
abbrev pub release_to : ℕ → List ℕ → Semaphore × Option ℕ
release_to permits [] = (record { permits = permits + 1; waiting = [] }, none)
release_to permits (task ∷ tasks) =
    (record { permits = permits + 1 - 1; waiting = tasks }, some task)

unfoldable pub release : Semaphore → Semaphore × Option ℕ
release s = release_to s.permits s.waiting

pub data TaskResult (V R : Type 0) : Type 0 where
  fulfilled : V → TaskResult V R
  rejected : R → TaskResult V R

-- A run of the tasks: those that hold a permit and are about to go on, those that run, and what is
-- answered.
pub record Run (V R : Type 0) : Type 0 where
  pub semaphore : Semaphore
  pub granted : List ℕ
  pub running : List ℕ
  pub results : Dict ℕ (TaskResult V R)
  pub completed : ℕ
  pub stop_reason : Option R

unfoldable pub remove : ℕ → List ℕ → List ℕ
remove task [] = []
remove task (other ∷ tasks) =
    let rest = remove task tasks in if other == task then tasks else other ∷ rest

abbrev pub to_list : Option ℕ → List ℕ
to_list none = []
to_list (some task) = task ∷ []

module _ {V R : Type 0} where
  -- The start of one wrapped task, up to `await semaphore.acquire()`.
  unfoldable pub launch : Run V R → ℕ → Run V R
  unfolding acquire
  launch r task =
      let (semaphore, at_once) = acquire r.semaphore task in
      if at_once
      then record r { semaphore = semaphore; granted = r.granted ++ task ∷ [] }
      else record r { semaphore = semaphore }

  unfoldable pub launch_all : Run V R → List ℕ → Run V R
  unfolding launch
  launch_all r [] = r
  launch_all r (task ∷ tasks) = launch_all (launch r task) tasks

  -- `semaphore.release()`
  unfoldable pub hand_over : Run V R → Run V R
  unfolding release
  hand_over r =
      let (semaphore, woken) = release r.semaphore in
      record r { semaphore = semaphore; granted = r.granted ++ to_list woken }

  -- A task goes on behind its `await`: it runs, or it is turned away once the run has stopped.
  unfoldable pub resume : Run V R → ℕ → Run V R
  unfolding hand_over remove
  resume r task = elim r.stop_reason [
    | none ↦ record r { granted = remove task r.granted; running = r.running ++ task ∷ [] }
    | some reason ↦ hand_over (record r {
      granted = remove task r.granted;
      results = insert task (rejected reason) r.results;
    })
  ]

  -- `if (options?.stopOnError?.(reason)) { stopped = true; stopReason = reason; }`
  abbrev pub stop_after : (R → Bool) → Option R → TaskResult V R → Option R
  stop_after stop_on_error before (fulfilled value) = before
  stop_after stop_on_error before (rejected reason) =
      if stop_on_error reason then some reason else before

  -- A running task is settled.
  unfoldable pub settle : (R → Bool) → Run V R → ℕ → TaskResult V R → Run V R
  unfolding hand_over remove
  settle stop_on_error r task result = hand_over (record r {
    running = remove task r.running;
    results = insert task result r.results;
    completed = r.completed + 1;
    stop_reason = stop_after stop_on_error r.stop_reason result;
  })

  -- The run before its first task.
  unfoldable pub begin : ℕ → Run V R
  begin concurrency = record {
    semaphore = record { permits = concurrency; waiting = [] };
    granted = [];
    running = [];
    results = [];
    completed = 0;
    stop_reason = none;
  }

  -- A task that was granted its permit goes on, or a running task is settled.
  pub data Step (stop_on_error : R → Bool) : Run V R → Run V R → Type 0 where
    resumed :
        (r : Run V R) (task : ℕ) → has r.granted task ≡ true → Step stop_on_error r (resume r task)
    settled :
        (r : Run V R) (task : ℕ) (result : TaskResult V R)
        → has r.running task ≡ true
        → Step stop_on_error r (settle stop_on_error r task result)

  -- The runs that `runWithConcurrencySettled` can reach, with the steps of its tasks in any order.
  pub data Reachable (stop_on_error : R → Bool) (concurrency : ℕ) (tasks : List ℕ)
      : Run V R → Type 0 where
    launched : Reachable stop_on_error concurrency tasks (launch_all (begin concurrency) tasks)
    stepped :
        (before after : Run V R)
        → Step stop_on_error before after
        → Reachable stop_on_error concurrency tasks before
        → Reachable stop_on_error concurrency tasks after
