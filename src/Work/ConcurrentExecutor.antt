-- ===== src/Work/ConcurrentExecutor.antt =====
-- src/common/ConcurrentExecutor.ts: at most maxConcurrencyLevel tasks run at a time. A task is a value;
-- its action returns a promise, whose end calls postProcess. `started` and `running` are what can be
-- seen from outside: the tasks that were called, in their order, and how many have not ended yet.
pub mod Limit
use hamok_ts.Prelude.{
  ℕ, zero, suc, ◌+◌, ◌-◌, Bool, Option, none, some, List, [], ◌∷◌, ◌++◌, ltb, if◌then◌else◌,
}

pub record ConcurrentExecutor (T : Type 0) : Type 0 where
  pub parked : List T
  pub tasks : List T
  pub semaphore : ℕ
  pub max_concurrency_level : ℕ
  pub started : List T
  pub running : ℕ

module _ {T : Type 0} where
  -- The constructor throws on a level below 1.
  unfoldable pub create : ℕ → Option (ConcurrentExecutor T)
  create level =
      if ltb level 1
      then none
      else some (record {
        parked = [];
        tasks = [];
        semaphore = level;
        max_concurrency_level = level;
        started = [];
        running = 0;
      })

  run_if : List T → ℕ → ConcurrentExecutor T → ConcurrentExecutor T
  run_if [] semaphore e = e
  run_if (task ∷ tasks) zero e = e
  run_if (task ∷ tasks) (suc semaphore) e = record e {
    tasks = tasks;
    semaphore = semaphore;
    started = e.started ++ task ∷ [];
    running = suc e.running;
  }

  -- `_run`.
  unfoldable pub run : ConcurrentExecutor T → ConcurrentExecutor T
  unfolding run_if
  run e = run_if e.tasks e.semaphore e

  unfoldable pub execute : T → Bool → ConcurrentExecutor T → ConcurrentExecutor T
  unfolding run
  execute task park e = run (
      if park
      then record e { parked = e.parked ++ task ∷ [] }
      else record e { tasks = e.tasks ++ task ∷ [] })

  unfoldable pub flush_parked_actions : ConcurrentExecutor T → ConcurrentExecutor T
  unfolding run
  flush_parked_actions e = run (record e { tasks = e.tasks ++ e.parked; parked = [] })

  -- `postProcess`, when a task has ended.
  unfoldable pub post_process : ConcurrentExecutor T → ConcurrentExecutor T
  unfolding run
  post_process e =
      let semaphore =
        if ltb e.max_concurrency_level (suc e.semaphore)
        then e.max_concurrency_level
        else suc e.semaphore in
      run (record e { semaphore = semaphore; running = e.running - 1 })
