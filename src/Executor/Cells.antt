-- ===== src/Executor/Cells.antt =====
-- What the calls of local-executor do to the cells of the tasks: no task is ever removed.
use openoscamp_2025s.Base.{
  ℕ, ◌+◌, ◌≤◌, ◌≡◌, refl, sym, ap, ◌∙◌, none, some, [], ◌∷◌, ◌++◌, length, get_elem?, length-set,
  length-append, arith, inl, inr,
}
use openoscamp_2025s.Base.Fault.{done, Exec-cases, done_injective, done≢fault}
use openoscamp_2025s.Base.Future.{Poll, pending}
use openoscamp_2025s.Executor.{
  Waker, noop, wakes, TaskImpl, task_ready, task_pending, Script, ret, wake, spawn, read, abort,
  Heap, wake_by, put_cell, exclusive_access, spawn_task, abort_task, read_state, read_task, perform,
}

module _ {F O : Type 0} where
  pub wake_by-cells : (h : Heap F O) (w : Waker) → (wake_by h w).cells ≡ h.cells
  unfolding wake_by
  wake_by-cells h noop = refl
  wake_by-cells h (wakes id) = refl

  pub wake_by-queue : (h : Heap F O) (id : ℕ) → (wake_by h (wakes id)).queue ≡ h.queue ++ id ∷ []
  unfolding wake_by
  wake_by-queue h id = refl

  pub read_task_lem :
      (h : Heap F O) (id : ℕ) (w : Waker) (t : TaskImpl F O)
      → get_elem? h.cells id ≡ some (some t)
      → read_task h id w ≡ done ((read_state t w).0, put_cell h id (some (read_state t w).1))
  unfolding read_task exclusive_access
  read_task_lem h id w t e = rw e

  pub abort_task_lem :
      (h : Heap F O) (id : ℕ) (t : TaskImpl F O)
      → get_elem? h.cells id ≡ some (some t)
      → abort_task h id ≡ done (put_cell h id (some (task_ready pending)))
  unfolding abort_task exclusive_access
  abort_task_lem h id t e = rw e

  read_task_size :
      (h h' : Heap F O) (id : ℕ) (w : Waker) (o : Poll O)
      → read_task h id w ≡ done (o, h')
      → length h'.cells ≡ length h.cells
  unfolding read_task
  read_task_size h h' id w o e = elim (Exec-cases (exclusive_access h id)) [
    | inl (t, q) ↦
        let eq = done_injective (rw q at e) in
        ap (λ r. length (r.1).cells) (sym eq) ∙ length-set h.cells id (some (read_state t w).1)
    | inr (x, q) ↦ absurd (done≢fault (sym (rw q at e)))
  ]

  abort_task_size :
      (h h' : Heap F O) (id : ℕ) → abort_task h id ≡ done h' → length h'.cells ≡ length h.cells
  unfolding abort_task
  abort_task_size h h' id e = elim (Exec-cases (exclusive_access h id)) [
    | inl (t, q) ↦
        let eq = done_injective (rw q at e) in
        ap (λ (r : Heap F O). length r.cells) (sym eq)
        ∙ length-set h.cells id (some (task_ready pending))
    | inr (x, q) ↦ absurd (done≢fault (sym (rw q at e)))
  ]

  pub spawn_task_size :
      (h : Heap F O) (fut : F) → length (spawn_task h fut).1.cells ≡ length h.cells + 1
  unfolding spawn_task
  spawn_task_size h fut = length-append h.cells (some (task_pending fut none) ∷ [])

  pub perform_grows :
      {A : Type 0} (s : Script F O A) (h h' : Heap F O) (a : A)
      → perform s h ≡ done (a, h')
      → length h.cells ≤ length h'.cells
  unfolding perform
  perform_grows (ret b?) h h' a e =
      let eq : length h.cells ≡ length h'.cells = ap (λ r. length (r.1).cells) (done_injective e) in
      omega (arith, eq)
  perform_grows (wake w s) h h' a e =
      let q : length (wake_by h w).cells ≡ length h.cells = ap length (wake_by-cells h w) in
      omega (arith, perform_grows s (wake_by h w) h' a e, q)
  perform_grows (spawn fut k) h h' a e = omega (
    arith,
    perform_grows (k (spawn_task h fut).0) (spawn_task h fut).1 h' a e,
    spawn_task_size h fut,
  )
  perform_grows (read id w k) h h' a e = elim (Exec-cases (read_task h id w)) [
    | inl (r, q) ↦
        omega (arith, perform_grows (k r.0) r.1 h' a (rw q at e), read_task_size h r.1 id w r.0 q)
    | inr (x, q) ↦ absurd (done≢fault (sym (rw q at e)))
  ]
  perform_grows (abort id s) h h' a e = elim (Exec-cases (abort_task h id)) [
    | inl (g, q) ↦ omega (arith, perform_grows s g h' a (rw q at e), abort_task_size h g id q)
    | inr (x, q) ↦ absurd (done≢fault (sym (rw q at e)))
  ]
