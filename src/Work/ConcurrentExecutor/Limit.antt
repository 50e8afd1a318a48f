-- ===== src/Work/ConcurrentExecutor/Limit.antt =====
-- The limit on running tasks, and that no task waits for ever.
use hamok_ts.Work.ConcurrentExecutor.{
  create, run, run_if, post_process, flush_parked_actions, execute, ConcurrentExecutor,
}
use hamok_ts.Prelude.{
  ◌∙◌, ◌-◌, arith, ltb, inr, append_one, if◌then◌else◌, inl, [], suc, some, ◌∷◌, List, ℕ, ◌++◌, ◌⊎◌,
  ◌+◌, ◌≤◌, ◌≡◌, Bool, length, zero, refl, sym, true, false, number_key, string_key, append_nil,
}

-- What the environment does: a call of execute or flushParkedActions, or a task that ends.
pub data Action (T : Type 0) : Type 0 where
  execution : T → Bool → Action T
  flush : Action T
  end_of_task : Action T

module _ {T : Type 0} where
  -- A task can end only where one runs.
  abbrev pub CanHappen : Action T → ConcurrentExecutor T → Type 0
  CanHappen (execution t park) e = Unit {0}
  CanHappen flush e = Unit {0}
  CanHappen end_of_task e = 1 ≤ e.running

  unfoldable pub act : Action T → ConcurrentExecutor T → ConcurrentExecutor T
  act (execution t park) e = execute t park e
  act flush e = flush_parked_actions e
  act end_of_task e = post_process e

  -- What an executor reaches.
  pub data Reaches (start : ConcurrentExecutor T) : ConcurrentExecutor T → Type 0 where
    here : Reaches start start
    then_act :
        {e : ConcurrentExecutor T}
        → Reaches start e
        → (a : Action T) → CanHappen a e
        → Reaches start (act a e)

  -- The semaphore counts what may still start, and where a task waits, one runs.
  abbrev pub Bounded : ConcurrentExecutor T → Type 0
  Bounded e =
      (e.semaphore + e.running ≡ e.max_concurrency_level)
      × (1 ≤ e.max_concurrency_level)
      × ((length e.tasks ≡ 0) ⊎ (1 ≤ e.running))

  run_if-Bounded :
      (tasks : List T) (semaphore : ℕ) (e : ConcurrentExecutor T)
      → e.tasks ≡ tasks
      → e.semaphore ≡ semaphore
      → semaphore + e.running ≡ e.max_concurrency_level
      → 1 ≤ e.max_concurrency_level
      → Bounded (run_if tasks semaphore e)
  unfolding run_if
  run_if-Bounded [] semaphore e t s h l = (rw (s) h, l, inl (rw (t) refl))
  run_if-Bounded (task ∷ tasks) zero e t s h l = (rw (s) h, l, inr (omega arith))
  run_if-Bounded (task ∷ tasks) (suc semaphore) e t s h l = (omega arith, l, inr (omega arith))

  run-Bounded :
      (e : ConcurrentExecutor T)
      → e.semaphore + e.running ≡ e.max_concurrency_level
      → 1 ≤ e.max_concurrency_level
      → Bounded (run e)
  unfolding run
  run-Bounded e h l = run_if-Bounded e.tasks e.semaphore e refl refl h l

  act-Bounded :
      (a : Action T) (e : ConcurrentExecutor T) → Bounded e → CanHappen a e → Bounded (act a e)
  unfolding act execute flush_parked_actions post_process
  act-Bounded (execution t true) e b c =
      run-Bounded (record e { parked = e.parked ++ t ∷ [] }) b.0 b.1
  act-Bounded (execution t false) e b c =
      run-Bounded (record e { tasks = e.tasks ++ t ∷ [] }) b.0 b.1
  act-Bounded flush e b c =
      run-Bounded (record e { tasks = e.tasks ++ e.parked; parked = [] }) b.0 b.1
  act-Bounded end_of_task e b c =
      let semaphore =
        if ltb e.max_concurrency_level (suc e.semaphore)
        then e.max_concurrency_level
        else suc e.semaphore in
      run-Bounded (record e { semaphore = semaphore; running = e.running - 1 }) (ground arith) b.1

  create-Bounded : (level : ℕ) (e : ConcurrentExecutor T) → create level ≡ some e → Bounded e
  unfolding create
  create-Bounded level e h = ground arith

  -- In every state that an executor reaches by calls of execute and flushParkedActions and by
  -- tasks that end, the running tasks and the semaphore add up to the maximal level, which is at
  -- least 1, and if a task waits, one runs.
  pub Reaches-Bounded :
      (level : ℕ) (start e : ConcurrentExecutor T)
      → create level ≡ some start
      → Reaches start e
      → Bounded e
  Reaches-Bounded level start e h here = create-Bounded level start h
  Reaches-Bounded level start e h (then_act {e = before} reached a can) =
      act-Bounded a before (Reaches-Bounded level start before h reached) can

  run_if-order :
      (tasks : List T) (semaphore : ℕ) (e : ConcurrentExecutor T)
      → e.tasks ≡ tasks
      → ((run_if tasks semaphore e).started ++ (run_if tasks semaphore e).tasks
          ≡ e.started ++ tasks)
        × (length (run_if tasks semaphore e).tasks + (run_if tasks semaphore e).running
            ≡ length tasks + e.running)
  unfolding run_if
  run_if-order [] semaphore e t = (rw (t) refl, rw (t) refl)
  run_if-order (task ∷ tasks) zero e t = (rw (t) refl, rw (t) refl)
  run_if-order (task ∷ tasks) (suc semaphore) e t = (append_one e.started task tasks, omega arith)

  -- `count` tasks end, one after the other.
  unfoldable pub end_tasks : ℕ → ConcurrentExecutor T → ConcurrentExecutor T
  end_tasks zero e = e
  end_tasks (suc count) e = end_tasks count (post_process e)

  post_process-order :
      (e : ConcurrentExecutor T)
      → 1 ≤ e.running
      → ((post_process e).started ++ (post_process e).tasks ≡ e.started ++ e.tasks)
        × (suc (length (post_process e).tasks + (post_process e).running)
            ≡ length e.tasks + e.running)
  unfolding post_process run
  post_process-order e h =
      let semaphore =
        if ltb e.max_concurrency_level (suc e.semaphore)
        then e.max_concurrency_level
        else suc e.semaphore in
      let (order, count) =
        run_if-order e.tasks semaphore (record e { semaphore = semaphore; running = e.running - 1 })
          refl in
      (order, omega (arith, count))

  length_zero : (xs : List T) → length xs ≡ 0 → xs ≡ []
  length_zero [] h = refl
  length_zero (x ∷ xs) h = absurd (omega arith)

  pub end_tasks_drains :
      (count : ℕ) (e : ConcurrentExecutor T)
      → Bounded e
      → length e.tasks + e.running ≡ count
      → ((end_tasks count e).tasks ≡ [])
        × ((end_tasks count e).running ≡ 0)
        × ((end_tasks count e).started ≡ e.started ++ e.tasks)
  unfolding end_tasks post_process act
  end_tasks_drains zero e b n =
      let empty = length_zero e.tasks (omega arith) in
      (empty, omega arith, rw (empty) (sym (append_nil e.started)))
  end_tasks_drains (suc count) e b n =
      let running : 1 ≤ e.running = elim b.2 [ inl none_left ↦ omega arith | inr one ↦ one ] in
      let (order, fewer) = post_process-order e running in
      let (tasks, none_left, started) =
        end_tasks_drains count (post_process e) (act-Bounded end_of_task e b running)
          (omega (arith, fewer)) in
      (tasks, none_left, started ∙ order)

  -- From every state that an executor reaches, as many ends of tasks as there are tasks that run
  -- or wait leave none running and none waiting, and the waiting tasks have been started in their
  -- order.
  pub Reaches-drains :
      (level : ℕ) (start e : ConcurrentExecutor T)
      → create level ≡ some start
      → Reaches start e
      → let after = end_tasks (length e.tasks + e.running) e in
        (after.tasks ≡ []) × (after.running ≡ 0) × (after.started ≡ e.started ++ e.tasks)
  Reaches-drains level start e h reached =
      end_tasks_drains (length e.tasks + e.running) e (Reaches-Bounded level start e h reached) refl
