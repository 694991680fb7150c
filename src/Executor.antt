-- ===== src/Executor.antt =====
-- local-executor/src/task.rs and local-executor/src/executor.rs: tasks behind shared references, and
-- the queue of those that were waked. A task is known by its place in the list of all tasks; its
-- `RefCell` is `none` while it is borrowed. `Task`, `TaskRef` and `LocalWaker` are that number.
pub mod Round
pub mod Cells
pub mod Join
pub mod Await
pub mod Behaves
pub mod Safe
mod Tests
use openoscamp_2025s.Base.{
  ℕ, zero, suc, ◌+◌, ◌≡◌, Bool, true, false, Option, none, some, List, [], ◌∷◌, ◌++◌, length,
  get_elem?, set,
}
use openoscamp_2025s.Base.Fault.{Exec, done, fault, panic, out_of_fuel, ◌>>=◌, expect, access}
use openoscamp_2025s.Base.Future.{Poll, ready, pending}

-- `Waker::noop`, or the waker of a task
pub data Waker : Type 0 where
  noop : Waker
  wakes : ℕ → Waker

pub data TaskImpl (F O : Type 0) : Type 0 where
  task_ready : (val : Poll O) → TaskImpl F O
  task_pending : (fut : F) (waker : Option Waker) → TaskImpl F O

-- What the code of a future may do to the executor while it is polled, through the functions that
-- local-executor exports: wake a waker, `spawn` a future, poll a `Task`, `abort` a `Task`. A call of
-- `block_on` of the same executor from within is not among them.
pub data Script (F O A : Type 0) : Type 0 where
  ret : A → Script F O A
  wake : Waker → Script F O A → Script F O A
  spawn : F → (ℕ → Script F O A) → Script F O A
  read : (id : ℕ) → Waker → (Poll O → Script F O A) → Script F O A
  abort : (id : ℕ) → Script F O A → Script F O A

-- All tasks, and the queue of the executor.
pub record Heap (F O : Type 0) : Type 0 where
  pub cells : List (Option (TaskImpl F O))
  pub queue : List ℕ

-- `Executor::new`
abbrev pub new_executor : {F O : Type 0} → Heap F O
new_executor = record { cells = []; queue = [] }

module _ {F O : Type 0} where
  -- `Executor::wake`
  abbrev pub wake_task : Heap F O → ℕ → Heap F O
  wake_task h id = record h { queue = h.queue ++ id ∷ [] }

  unfoldable pub wake_by : Heap F O → Waker → Heap F O
  wake_by h noop = h
  wake_by h (wakes id) = wake_task h id

  -- `Option::map` of a wake
  unfoldable pub notify : Heap F O → Option Waker → Heap F O
  notify h none = h
  notify h (some w) = wake_by h w

  abbrev pub put_cell : Heap F O → ℕ → Option (TaskImpl F O) → Heap F O
  put_cell h id c = record h { cells = set h.cells id c }

  -- `exclusive_access`: `borrow_mut` panics if the cell is borrowed.
  unfoldable pub exclusive_access : Heap F O → ℕ → Exec (TaskImpl F O)
  exclusive_access h id = access (get_elem? h.cells id) >>= λ c. expect c

  -- `Executor::spawn`, with `Task::new`
  unfoldable pub spawn_task : Heap F O → F → ℕ × Heap F O
  spawn_task h fut =
      let id : ℕ = length h.cells in
      let task : TaskImpl F O = task_pending fut none in
      (id, wake_task (record h { cells = h.cells ++ some task ∷ [] }) id)

  -- `TaskImpl::abort`: the future is dropped.
  unfoldable pub abort_task : Heap F O → ℕ → Exec (Heap F O)
  abort_task h id = exclusive_access h id >>= λ t. done (put_cell h id (some (task_ready pending)))

  -- `TaskImpl::read`: what it leaves in the output, and the new state. Both arms for a task that
  -- is pending end with the waker that was given.
  unfoldable pub read_state : TaskImpl F O → Waker → Poll O × TaskImpl F O
  read_state (task_ready val) waker = (val, task_ready pending)
  read_state (task_pending fut w) waker = (pending, task_pending fut (some waker))

  -- `Future::poll` of `Task`
  unfoldable pub read_task : Heap F O → ℕ → Waker → Exec (Poll O × Heap F O)
  read_task h id waker = exclusive_access h id >>= λ t.
      let (output, t') = read_state t waker in done (output, put_cell h id (some t'))

  unfoldable pub perform : {A : Type 0} → Script F O A → Heap F O → Exec (A × Heap F O)
  perform (ret a) h = done (a, h)
  perform (wake w s) h = perform s (wake_by h w)
  perform (spawn fut k) h = perform (k (spawn_task h fut).0) (spawn_task h fut).1
  perform (read id w k) h = read_task h id w >>= λ r. perform (k r.0) r.1
  perform (abort id s) h = abort_task h id >>= λ h'. perform s h'

  -- The end of `TaskImpl::poll` with what the future has returned; its state is written back.
  unfoldable pub settle : ℕ → Option Waker → Poll O × F → Heap F O → Poll (Unit {0}) × Heap F O
  settle id waker (pending, fut) h = (pending, put_cell h id (some (task_pending fut waker)))
  settle id waker (ready val, fut) h =
      (ready tt, notify (put_cell h id (some (task_ready (ready val)))) waker)

  -- `poll_fn` of `yield_now`, whose state is `polled`
  unfoldable pub yield_now : Waker → Bool → Script F O (Poll (Unit {0}) × Bool)
  yield_now waker true = ret (ready tt, true)
  yield_now waker false = wake waker (ret (pending, true))

  -- `resume` is the code of the futures: what a poll with the waker of the task does, and what it
  -- returns with the future's new state.
  module _ (resume : F → ℕ → Script F O (Poll O × F)) where
    -- `TaskImpl::poll`, for the task that `exclusive_access` has given out
    unfoldable pub poll_task : Heap F O → ℕ → TaskImpl F O → Exec (Poll (Unit {0}) × Heap F O)
    poll_task h id (task_ready val) = done (ready tt, h)
    poll_task h id (task_pending fut waker) =
        perform (resume fut id) (put_cell h id none) >>= λ r. done (settle id waker r.0 r.1)

    -- `TaskRef::poll_wakeable`
    unfoldable pub poll_wakeable : Heap F O → ℕ → Exec (Poll (Unit {0}) × Heap F O)
    poll_wakeable h id = exclusive_access h id >>= λ t. poll_task h id t

    -- `pop_front`
    unfoldable pub pop_front : Heap F O → Option (ℕ × Heap F O)
    pop_front h = elim h.queue [ [] ↦ none | id ∷ q ↦ some (id, record h { queue = q }) ]

    -- The loop over the tasks that were waked before it.
    unfoldable pub poll_count : ℕ → Heap F O → Exec (Heap F O)
    poll_count zero h = done h
    poll_count (suc n) h =
        expect (pop_front h) >>= λ t. poll_wakeable t.1 t.0 >>= λ r. poll_count n r.1

    unfoldable pub round : Heap F O → Exec (Heap F O)
    round h = poll_count (length h.queue) h

    -- `Executor::block_on`, of a future whose code is `main`, for at most so many rounds.
    unfoldable pub block_on :
        {M T : Type 0} → (M → Script F O (Poll T × M)) → ℕ → M → Heap F O → Exec (T × Heap F O)
    block_on main zero fut h = fault out_of_fuel
    block_on main (suc n) fut h = perform (main fut) h >>= λ r. elim (r.0).0 [
      | ready output ↦ done (output, r.1)
      | pending ↦ round r.1 >>= λ h'. block_on main n (r.0).1 h'
    ]
