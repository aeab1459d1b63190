-- ===== src/Tests/Concurrency.antt =====
-- A run of two tasks, one at a time.
use obsidian_yandex_disk_syn.Common.{
  ℕ, ◌+◌, ◌≤◌, ◌<◌, ◌≡◌, refl, ◌⊎◌, Bool, true, false, List, [], ◌∷◌, arith, is_some, nat_eq,
  bool_eq, option_eq, list_eq, length, has,
}
use obsidian_yandex_disk_syn.Common.Dict.{lookup, insert}
use obsidian_yandex_disk_syn.Semaphore.{
  acquire, release, fulfilled, rejected, Run, remove, launch, launch_all, hand_over, resume, settle,
  begin, resumed, settled, Reachable, launched, stepped,
}
use obsidian_yandex_disk_syn.Semaphore.Bounds.{concurrency_bound}
use obsidian_yandex_disk_syn.Semaphore.Accounting.{no_task_lost}
use obsidian_yandex_disk_syn.Semaphore.Progress.{remaining, runs_end}

abbrev never : ℕ → Bool
never reason = false

abbrev two_tasks : List ℕ
two_tasks = 0 ∷ 1 ∷ []

abbrev at_first : Run ℕ ℕ
at_first = launch_all (begin 1) two_tasks

abbrev first_runs : Run ℕ ℕ
first_runs = resume at_first 0

abbrev first_done : Run ℕ ℕ
first_done = settle never first_runs 0 (fulfilled 5)

abbrev second_runs : Run ℕ ℕ
second_runs = resume first_done 1

abbrev all_done : Run ℕ ℕ
all_done = settle never second_runs 1 (rejected 6)

holders :
    (has at_first.granted 0 ≡ true)
    × (has first_runs.running 0 ≡ true)
    × (has first_done.granted 1 ≡ true)
    × (has second_runs.running 1 ≡ true)
unfolding nat_eq acquire release remove launch launch_all hand_over resume settle begin lookup
    insert
holders = (refl, refl, refl, refl)

first_done-Reachable : Reachable never 1 two_tasks first_done
first_done-Reachable =
    stepped first_runs first_done (settled first_runs 0 (fulfilled 5) holders.1)
      (stepped at_first first_runs (resumed at_first 0 holders.0) launched)

all_done-Reachable : Reachable never 1 two_tasks all_done
all_done-Reachable =
    stepped second_runs all_done (settled second_runs 1 (rejected 6) holders.3)
      (stepped first_done second_runs (resumed first_done 1 holders.2) first_done-Reachable)

at_end : (all_done.granted ≡ []) × (all_done.running ≡ [])
unfolding nat_eq acquire release remove launch launch_all hand_over resume settle begin lookup
    insert
at_end = (refl, refl)

concurrency_bound_example :
    (length first_done.granted + length first_done.running ≤ 1)
    × ((first_done.semaphore.waiting ≡ [])
        ⊎ (length first_done.granted + length first_done.running ≡ 1))
concurrency_bound_example = concurrency_bound 1 never two_tasks first_done first_done-Reachable

has_second : has two_tasks 1 ≡ true
unfolding nat_eq
has_second = refl

no_task_lost_example :
    (all_done.semaphore.waiting ≡ []) × (is_some (lookup 1 all_done.results) ≡ true)
no_task_lost_example =
    no_task_lost never 1 two_tasks all_done 1 (omega arith) all_done-Reachable at_end.0 at_end.1
      has_second

runs_end_example :
    (remaining (launch_all (begin {V = ℕ} {R = ℕ} 1) two_tasks)
      ≡ length two_tasks + length two_tasks)
    × (remaining first_runs < remaining at_first)
runs_end_example = runs_end never 1 two_tasks at_first first_runs (resumed at_first 0 holders.0)
