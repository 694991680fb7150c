-- ===== src/Executor/Join.antt =====
-- The join of a task of local-executor: `Future::poll` of its `Task`, from another task.
use openoscamp_2025s.Base.{
  ℕ, ◌≤◌, ◌<◌, ◌≡◌, ap, ◌∙◌, Option, none, some, List, [], ◌∷◌, ◌++◌, length, get_elem?, length-set,
  set-set, lt_of_found, get_elem?-set_self, arith,
}
use openoscamp_2025s.Base.Fault.{done}
use openoscamp_2025s.Base.Future.{Poll, ready, pending}
use openoscamp_2025s.Executor.{
  Waker, wakes, TaskImpl, task_ready, task_pending, Script, Heap, wake_by, notify, put_cell,
  exclusive_access, read_state, read_task, perform, settle, poll_task, poll_wakeable,
}
use openoscamp_2025s.Executor.Cells.{wake_by-cells, wake_by-queue, read_task_lem, perform_grows}

module _ {F O : Type 0} where
  cell_put :
      (h : Heap F O) (id : ℕ) (c : Option (TaskImpl F O))
      → id < length h.cells
      → get_elem? (put_cell h id c).cells id ≡ some c
  cell_put h id c lt = get_elem?-set_self h.cells id c lt

  -- A task that is ready gives its value to the first that reads it.
  read_twice :
      (h : Heap F O) (id : ℕ) (w : Waker) (v : O)
      → id < length h.cells
      → get_elem? h.cells id ≡ some (some (task_ready (ready v)))
      → (h' h'' : Heap F O) × (read_task h id w ≡ done (ready v, h'))
        × (read_task h' id w ≡ done (pending, h''))
  unfolding read_state
  read_twice h id w v lt e =
      let h' : Heap F O = put_cell h id (some (task_ready pending)) in
      (
        h',
        put_cell h' id (some (task_ready pending)),
        read_task_lem h id w (task_ready (ready v)) e,
        read_task_lem h' id w (task_ready pending) (cell_put h id (some (task_ready pending)) lt),
      )

  module _ (resume : F → ℕ → Script F O (Poll O × F)) where
    poll_settles :
        (h g : Heap F O) (id j : ℕ) (fut f' : F) (v : O)
        → get_elem? h.cells id ≡ some (some (task_pending fut (some (wakes j))))
        → perform (resume fut id) (put_cell h id none) ≡ done ((ready v, f'), g)
        → poll_wakeable resume h id
          ≡ done (ready tt, wake_by (put_cell g id (some (task_ready (ready v)))) (wakes j))
    unfolding poll_wakeable exclusive_access poll_task settle notify
    poll_settles h g id j fut f' v e r = rw (e, r)

    -- Task j awaits a task that is pending: its poll is pending, and whatever waker was registered
    -- before, the poll of the task that makes it ready wakes j, last. Then j reads the output, and
    -- nobody reads it a second time.
    pub join_lem :
        (h g : Heap F O) (id j : ℕ) (fut f' : F) (w : Option Waker) (v : O)
        → get_elem? h.cells id ≡ some (some (task_pending fut w))
        → perform (resume fut id) (put_cell h id none) ≡ done ((ready v, f'), g)
        → (h1 h2 h3 h4 : Heap F O) × (read_task h id (wakes j) ≡ done (pending, h1))
          × (poll_wakeable resume h1 id ≡ done (ready tt, h2))
          × (h2.queue ≡ g.queue ++ j ∷ [])
          × (read_task h2 id (wakes j) ≡ done (ready v, h3))
          × (read_task h3 id (wakes j) ≡ done (pending, h4))
    unfolding read_state
    join_lem h g id j fut f' w v e r =
        let t : TaskImpl F O = task_pending fut (some (wakes j)) in
        let h1 : Heap F O = put_cell h id (some t) in
        let settled : Heap F O = put_cell g id (some (task_ready (ready v))) in
        let h2 : Heap F O = wake_by settled (wakes j) in
        let lt : id < length h.cells = lt_of_found h.cells id (some (task_pending fut w)) e in
        let same : put_cell h1 id none ≡ put_cell h id none =
          ap (λ (c : List (Option (TaskImpl F O))). record h { cells = c })
            (set-set h.cells id (some t) none) in
        let long : length (put_cell h id none).cells ≤ length g.cells =
          perform_grows (resume fut id) (put_cell h id none) g (ready v, f') r in
        let lt' : id < length g.cells = omega (arith, lt, long, length-set h.cells id none) in
        let cell : get_elem? h2.cells id ≡ some (some (task_ready (ready v))) =
          ap (λ c. get_elem? c id) (wake_by-cells settled (wakes j))
          ∙ cell_put g id (some (task_ready (ready v))) lt' in
        let lt2 : id < length h2.cells =
          lt_of_found h2.cells id (some (task_ready (ready v))) cell in
        let (h3, h4, r3, r4) = read_twice h2 id (wakes j) v lt2 cell in
        (
          h1,
          h2,
          h3,
          h4,
          read_task_lem h id (wakes j) (task_pending fut w) e,
          poll_settles h1 g id j fut f' v (cell_put h id (some t) lt)
              (ap (perform (resume fut id)) same ∙ r),
          wake_by-queue settled j,
          r3,
          r4,
        )
