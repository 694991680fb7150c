-- ===== src/Executor/Tests.antt =====
-- Tests of local-executor: a task that yields some times, a task that awaits it, and a main future
-- that spawns both and waits for the second.
use mathlib.Core.Option.{none-ne-some}
use openoscamp_2025s.Base.{ℕ, zero, suc, ◌≤◌, ◌<◌, ◌≡◌, refl, ◌≢◌, none, some, [], ◌∷◌, arith}
use openoscamp_2025s.Base.Fault.{done, fault, out_of_fuel}
use openoscamp_2025s.Base.Future.{Poll, ready, pending}
use openoscamp_2025s.Executor.{
  noop, wakes, task_pending, Script, ret, wake, spawn, read, Heap, new_executor, wake_by, notify,
  put_cell, exclusive_access, spawn_task, read_state, read_task, perform, settle, poll_task,
  poll_wakeable, pop_front, poll_count, round, block_on,
}
use openoscamp_2025s.Executor.Round.{poll_all, round-eq-poll_all}
use openoscamp_2025s.Executor.Join.{join_lem}
use openoscamp_2025s.Executor.Behaves.{InRange, Behaves}
use openoscamp_2025s.Executor.Await.{unspawned, await_spawned, spent_task, await_spawned_lem}
use openoscamp_2025s.Executor.Safe.Run.{block_on_safe, Outcome}

data Demo : Type 0 where
  ticks : ℕ → Demo
  joiner : ℕ → Demo

abbrev resume : Demo → ℕ → Script Demo ℕ (Poll ℕ × Demo)
resume (ticks zero) self = ret (ready 7, ticks 0)
resume (ticks (suc n)) self = wake (wakes self) (ret (pending, ticks n))
resume (joiner id) self = read id (wakes self) (λ o. ret (o, joiner id))

data Main : Type 0 where
  start : Main
  wait : ℕ → Main

abbrev main : Main → Script Demo ℕ (Poll ℕ × Main)
main start = spawn (ticks 2) (λ id. spawn (joiner id) (λ j. ret (pending, wait j)))
main (wait j) = read j noop (λ o. ret (o, wait j))

abbrev Good : ℕ → ℕ → Demo → Type 0
Good self n (ticks k) = self < n
Good self n (joiner id) = (self < n) × (id < n) × (self ≢ id)

abbrev GoodMain : ℕ → Main → Type 0
GoodMain n start = Unit {0}
GoodMain n (wait j) = j < n

mono : (i n m : ℕ) (f : Demo) → n ≤ m → Good i n f → Good i m f
mono i n m (ticks k) le g = omega arith
mono i n m (joiner id) le (l, l', ne) = (omega arith, omega arith, ne)

some_ne : (i j : ℕ) → i ≢ j → some i ≢ some j
some_ne i j ne e = ne (cc)

resumes :
    (i n : ℕ) (f : Demo)
    → Good i n f
    → Behaves {O = ℕ} Good (λ m (r : Poll ℕ × Demo). Good i m r.1) (some i) n (resume f i)
unfolding Behaves InRange
resumes i n (ticks zero) g = g
resumes i n (ticks (suc k)) g = (g, g)
resumes i n (joiner id) (l, l', ne) = (l', some_ne i id ne, l, λ o. (l, l', ne))

mains :
    (n : ℕ) (f : Main)
    → GoodMain n f
    → Behaves {O = ℕ} Good (λ m (r : Poll ℕ × Main). GoodMain m r.1) none n (main f)
unfolding Behaves InRange
mains n start g = (omega arith, ((omega arith, omega arith, λ e. omega (arith, e)), omega arith))
mains n (wait j) g = (g, none-ne-some j, tt, λ o. g)

main_mono : (n m : ℕ) (f : Main) → n ≤ m → GoodMain n f → GoodMain m f
main_mono n m start le g = tt
main_mono n m (wait j) le g = omega arith

block_on_test : (h : Heap Demo ℕ) × (block_on resume main 9 start new_executor ≡ done (7, h))
unfolding block_on perform round poll_count pop_front poll_wakeable exclusive_access poll_task
    settle notify wake_by spawn_task read_task read_state
block_on_test = (_, refl)

block_on_safe_example :
    Outcome Good mono resume resumes GoodMain main mains main_mono 9 start new_executor
block_on_safe_example =
    block_on_safe Good mono resume resumes GoodMain main mains main_mono 9 start tt

await_spawned_lem_example :
    (block_on resume await_spawned 9 (unspawned (ticks 2)) new_executor ≡ done (7, spent_task))
    × (block_on resume await_spawned 3 (unspawned (ticks 2)) new_executor ≡ fault out_of_fuel)
await_spawned_lem_example =
    await_spawned_lem resume 2 9 (ticks 2) 7 (ticks 1, refl, (ticks 0, refl, (ticks 0, refl)))
      (omega arith)

-- A task that has yielded and the one that awaits it, both waked.
abbrev two_tasks : Heap Demo ℕ
two_tasks = record {
  cells = some (task_pending (ticks 0) none) ∷ some (task_pending (joiner 0) none) ∷ [];
  queue = 1 ∷ 0 ∷ [];
}

round-eq-poll_all_example :
    round resume two_tasks ≡ poll_all resume (1 ∷ 0 ∷ []) (record two_tasks { queue = [] })
round-eq-poll_all_example = round-eq-poll_all resume two_tasks

performed :
    perform (resume (ticks 0) 0) (put_cell two_tasks 0 none)
    ≡ done ((ready 7, ticks 0), put_cell two_tasks 0 none)
unfolding perform
performed = refl

join_lem_example :
    (h1 h2 h3 h4 : Heap Demo ℕ) × (read_task two_tasks 0 (wakes 1) ≡ done (pending, h1))
    × (poll_wakeable resume h1 0 ≡ done (ready tt, h2))
    × (h2.queue ≡ 1 ∷ 0 ∷ 1 ∷ [])
    × (read_task h2 0 (wakes 1) ≡ done (ready 7, h3))
    × (read_task h3 0 (wakes 1) ≡ done (pending, h4))
join_lem_example =
    join_lem resume two_tasks (put_cell two_tasks 0 none) 0 1 (ticks 0) (ticks 0) none 7 refl
      performed
