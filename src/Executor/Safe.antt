-- ===== src/Executor/Safe.antt =====
-- A script that behaves does not panic in local-executor, and leaves its tasks sound.
pub mod Run
use openoscamp_2025s.Base.{
  ℕ, zero, suc, ◌+◌, ◌≤◌, ◌<◌, ◌≡◌, refl, sym, ap, ◌∙◌, subst, ◌≢◌, ◌⊎◌, inl, inr, Option, none,
  some, List, [], ◌∷◌, ◌++◌, length, get_elem?, set, length-append, get_elem?-append_some,
  get_elem?-last, arith,
}
use openoscamp_2025s.Base.Fault.{Exec, done, fault, out_of_fuel, ◌>>=◌, expect, access}
use openoscamp_2025s.Base.Future.{Poll, ready, pending}
use openoscamp_2025s.Executor.{
  Waker, noop, wakes, TaskImpl, task_ready, task_pending, Script, ret, wake, spawn, read, abort,
  Heap, new_executor, wake_by, notify, put_cell, exclusive_access, spawn_task, abort_task,
  read_state, read_task, perform, settle, poll_task, poll_wakeable, round, block_on,
}
use openoscamp_2025s.Executor.Round.{poll_all, round-eq-poll_all}
use openoscamp_2025s.Executor.Cells.{read_task_lem, abort_task_lem}
use openoscamp_2025s.Executor.Behaves.{
  InRange, AreInRange, InRange-mono, AreInRange-mono, AreInRange-snoc, Behaves, IsFine, IsSound,
  AreSound, wake_by-IsSound, put_cell-IsSound, put_back-IsSound, take_out-IsSound,
}

module _ {F O : Type 0} (Good : ℕ → ℕ → F → Type 0)
    (mono : (i n m : ℕ) (f : F) → n ≤ m → Good i n f → Good i m f) where
  read_state-IsFine :
      (n i : ℕ) (t : TaskImpl F O) (w : Waker)
      → InRange n w
      → IsFine Good n i t
      → IsFine Good n i (read_state t w).1
  unfolding read_state IsFine
  read_state-IsFine n i (task_ready v) w r fine = tt
  read_state-IsFine n i (task_pending f none) w r fine = (fine, r)
  read_state-IsFine n i (task_pending f (some x)) w r fine = (fine.0, r)

  IsFine-mono : (n m i : ℕ) (t : TaskImpl F O) → n ≤ m → IsFine Good n i t → IsFine Good m i t
  unfolding IsFine
  IsFine-mono n m i (task_ready v) le fine = tt
  IsFine-mono n m i (task_pending f none) le fine = mono i n m f le fine
  IsFine-mono n m i (task_pending f (some w)) le fine =
      (mono i n m f le fine.0, InRange-mono n m w le fine.1)

  spawn_task-IsSound :
      (n : ℕ) (busy : Option ℕ) (h : Heap F O) (f : F)
      → IsSound Good n busy h
      → Good n (n + 1) f
      → ((spawn_task h f).0 ≡ n) × IsSound Good (n + 1) busy (spawn_task h f).1
  unfolding spawn_task IsFine
  spawn_task-IsSound n busy h f s g = (
    s.size,
    record {
      size = length-append h.cells (some (task_pending f none) ∷ []) ∙ ap (λ (k : ℕ). k + 1) s.size;
      sound = λ i lt. elim (split i lt) [
        | inl old ↦ elim (s.sound i old) [
          | inl (t, e, fine) ↦ inl (
            t,
            get_elem?-append_some h.cells (some (task_pending f none)) (some t) i e,
            IsFine-mono n (n + 1) i t (omega arith) fine,
          )
          | inr q ↦ inr q
        ]
        | inr e ↦ inl (
          task_pending f none,
          get_elem?-last h.cells (some (task_pending f none)) i (e ∙ sym s.size),
          subst (λ k. Good k (n + 1) f) (sym e) g,
        )
      ];
      waked =
          AreInRange-snoc (n + 1) h.queue (length h.cells)
            (AreInRange-mono n (n + 1) h.queue (omega arith) s.waked) (omega (arith, s.size));
    },
  )
    where
      split : (i : ℕ) → i < n + 1 → (i < n) ⊎ (i ≡ n)
      split i lt = ground arith

  -- A call of a script that behaves does not panic, and its tasks stay sound.
  abbrev pub Performs :
      {A : Type 0} → (ℕ → A → Type 0) → Option ℕ → ℕ → Script F O A → Heap F O → Type 0
  Performs {A = A} K self n s h =
      (m : ℕ) × (x : A) × (h' : Heap F O) × (perform s h ≡ done (x, h'))
      × (n ≤ m)
      × K m x
      × IsSound Good m self h'

  pub other :
      (n : ℕ) (self : Option ℕ) (h : Heap F O) (id : ℕ)
      → IsSound Good n self h
      → id < n
      → self ≢ some id
      → (t : TaskImpl F O) × (get_elem? h.cells id ≡ some (some t)) × IsFine Good n id t
  other n self h id s lt ne = elim (s.sound id lt) [ inl f ↦ f | inr q ↦ absurd (ne q) ]

  pub perform-IsSound :
      {A : Type 0} (K : ℕ → A → Type 0) (self : Option ℕ) (n : ℕ) (s : Script F O A) (h : Heap F O)
      → Behaves Good K self n s
      → IsSound Good n self h
      → Performs K self n s h
  unfolding perform Behaves IsFine
  perform-IsSound K self n (ret x) h b? s = (n, x, h, refl, omega arith, b?, s)
  perform-IsSound K self n (wake w r) h (i, b?) s =
      perform-IsSound K self n r (wake_by h w) b? (wake_by-IsSound Good n self h w s i)
  perform-IsSound K self n (spawn f k) h (g, b?) s =
      let (id, s') = spawn_task-IsSound n self h f s g in
      let (m, x, h', e, le, kx, s'') =
        perform-IsSound K self (n + 1) (k n) (spawn_task h f).1 b? s' in
      (m, x, h', ap (λ i. perform (k i) (spawn_task h f).1) id ∙ e, omega arith, kx, s'')
  perform-IsSound K self n (read id w k) h (lt, ne, i, b?) s =
      let (t, e, fine) = other n self h id s lt ne in
      let h1 : Heap F O = put_cell h id (some (read_state t w).1) in
      let (m, x, h', e', le, kx, s') =
        perform-IsSound K self n (k (read_state t w).0) h1 (b? (read_state t w).0) (
          put_cell-IsSound Good n self h id (read_state t w).1 s lt
            (read_state-IsFine n id t w i fine)) in
      (m, x, h', rw (read_task_lem h id w t e) e', le, kx, s')
  perform-IsSound K self n (abort id r) h (lt, ne, b?) s =
      let (t, e, fine) = other n self h id s lt ne in
      let (m, x, h', e', le, kx, s') =
        perform-IsSound K self n r (put_cell h id (some (task_ready pending))) b?
          (put_cell-IsSound Good n self h id (task_ready pending) s lt tt) in
      (m, x, h', rw (abort_task_lem h id t e) e', le, kx, s')
