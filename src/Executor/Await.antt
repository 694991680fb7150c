-- ===== src/Executor/Await.antt =====
-- `block_on` of local-executor, of a future that spawns a task and awaits it.
use openoscamp_2025s.Base.{ℕ, zero, suc, ◌+◌, ◌<◌, ◌≤◌, ◌≡◌, refl, ◌∙◌, some, [], ◌∷◌, arith}
use openoscamp_2025s.Base.Fault.{done, fault, out_of_fuel}
use openoscamp_2025s.Base.Future.{Poll, ready, pending}
use openoscamp_2025s.Executor.{
  noop, wakes, task_ready, task_pending, Script, ret, wake, spawn, read, Heap, new_executor,
  wake_by, notify, exclusive_access, spawn_task, read_state, read_task, perform, settle, poll_task,
  poll_wakeable, pop_front, poll_count, round, block_on,
}

-- `async { spawn(fut).await }`
pub data AwaitSpawned (F : Type 0) : Type 0 where
  unspawned : F → AwaitSpawned F
  awaiting : ℕ → AwaitSpawned F

module _ {F O : Type 0} where
  unfoldable pub await_spawned : AwaitSpawned F → Script F O (Poll O × AwaitSpawned F)
  await_spawned (unspawned fut) =
      spawn fut (λ id. read id noop (λ output. ret (output, awaiting id)))
  await_spawned (awaiting id) = read id noop (λ output. ret (output, awaiting id))

  abbrev pub spent_task : Heap F O
  spent_task = record { cells = some (task_ready pending) ∷ []; queue = [] }

  module _ (resume : F → ℕ → Script F O (Poll O × F)) where
    -- A future that, as the task id, yields so often, each time as `yield_now` does, and is then ready.
    abbrev pub Yields : ℕ → ℕ → F → O → Type 0
    Yields id zero fut val = (g : F) × (resume fut id ≡ ret (ready val, g))
    Yields id (suc n) fut val =
        (g : F) × (resume fut id ≡ wake (wakes id) (ret (pending, g))) × Yields id n g val

    -- The one task that there is, awaited and waked.
    abbrev waked : F → Heap F O
    waked fut = record { cells = some (task_pending fut (some noop)) ∷ []; queue = 0 ∷ [] }

    round_yields :
        (fut g : F)
        → resume fut 0 ≡ wake (wakes 0) (ret (pending, g))
        → round resume (waked fut) ≡ done (waked g)
    unfolding round poll_count pop_front poll_wakeable exclusive_access poll_task perform wake_by
        settle
    round_yields fut g e = rw e refl

    round_last :
        (fut g : F) (val : O)
        → resume fut 0 ≡ ret (ready val, g)
        → round resume (waked fut)
          ≡ done (record { cells = some (task_ready (ready val)) ∷ []; queue = [] })
    unfolding round poll_count pop_front poll_wakeable exclusive_access poll_task perform settle
        notify wake_by
    round_last fut g val e = rw e refl

    -- The main future finds the task pending, and a round follows.
    first_poll :
        (fuel : ℕ) (fut : F) (h : Heap F O)
        → round resume (waked fut) ≡ done h
        → block_on resume await_spawned (suc fuel) (unspawned fut) new_executor
          ≡ block_on resume await_spawned fuel (awaiting 0) h
    unfolding block_on perform await_spawned spawn_task read_task read_state exclusive_access
    first_poll fuel fut h e = rw e refl

    next_poll :
        (fuel : ℕ) (fut : F) (h : Heap F O)
        → round resume (waked fut) ≡ done h
        → block_on resume await_spawned (suc fuel) (awaiting 0) (waked fut)
          ≡ block_on resume await_spawned fuel (awaiting 0) h
    unfolding block_on perform await_spawned read_task read_state exclusive_access
    next_poll fuel fut h e = rw e refl

    last_poll :
        (fuel : ℕ) (val : O)
        → block_on resume await_spawned
            (suc fuel)
            (awaiting 0)
            (record { cells = some (task_ready (ready val)) ∷ []; queue = [] })
          ≡ done (val, spent_task)
    unfolding block_on perform await_spawned read_task read_state exclusive_access
    last_poll fuel val = refl

    out : (h : Heap F O) → block_on resume await_spawned zero (awaiting 0) h ≡ fault out_of_fuel
    unfolding block_on
    out h = refl

    waits_done :
        (n fuel : ℕ) (fut : F) (val : O)
        → Yields 0 n fut val
        → n + 1 < fuel
        → block_on resume await_spawned fuel (awaiting 0) (waked fut) ≡ done (val, spent_task)
    waits_done n zero fut val y lt = absurd (omega arith)
    waits_done n (suc zero) fut val y lt = absurd (omega arith)
    waits_done zero (suc (suc fuel)) fut val (g, e) lt =
        next_poll (suc fuel) fut _ (round_last fut g val e) ∙ last_poll fuel val
    waits_done (suc n) (suc (suc fuel)) fut val (g, e, y) lt =
        next_poll (suc fuel) fut (waked g) (round_yields fut g e)
        ∙ waits_done n (suc fuel) g val y (omega arith)

    waits_out :
        (n fuel : ℕ) (fut : F) (val : O)
        → Yields 0 n fut val
        → fuel ≤ n + 1
        → block_on resume await_spawned fuel (awaiting 0) (waked fut) ≡ fault out_of_fuel
    waits_out n zero fut val y le = out (waked fut)
    waits_out zero (suc zero) fut val (g, e) le = next_poll 0 fut _ (round_last fut g val e) ∙ out _
    waits_out zero (suc (suc fuel)) fut val y le = absurd (omega arith)
    waits_out (suc n) (suc fuel) fut val (g, e, y) le =
        next_poll fuel fut (waked g) (round_yields fut g e) ∙ waits_out n fuel g val y (omega arith)

    -- If a future, as the first task, yields n times before it is ready, then `block_on` of a future that
    -- spawns it and awaits the task returns its value after n + 2 polls of that future and no fewer, and
    -- leaves the task spent and the queue empty: each round polls the task that has waked itself.
    pub await_spawned_lem :
        (n fuel : ℕ) (fut : F) (val : O)
        → Yields 0 n fut val
        → n + 1 < fuel
        → (block_on resume await_spawned fuel (unspawned fut) new_executor ≡ done (val, spent_task))
          × (block_on resume await_spawned (suc n) (unspawned fut) new_executor ≡ fault out_of_fuel)
    await_spawned_lem n zero fut val y lt = absurd (omega arith)
    await_spawned_lem n (suc zero) fut val y lt = absurd (omega arith)
    await_spawned_lem zero (suc (suc fuel)) fut val (g, e) lt = (
      first_poll (suc fuel) fut _ (round_last fut g val e) ∙ last_poll fuel val,
      first_poll 0 fut _ (round_last fut g val e) ∙ out _,
    )
    await_spawned_lem (suc n) (suc (suc fuel)) fut val (g, e, y) lt = (
      first_poll (suc fuel) fut (waked g) (round_yields fut g e)
          ∙ waits_done n (suc fuel) g val y (omega arith),
      first_poll (suc n) fut (waked g) (round_yields fut g e)
          ∙ waits_out n (suc n) g val y (omega arith),
    )
