-- ===== src/Executor/Round.antt =====
-- One round of `block_on` of local-executor/src/executor.rs: which tasks it polls.
use openoscamp_2025s.Base.{
  ℕ, ◌≡◌, refl, sym, ap, ◌∙◌, Option, none, some, List, [], ◌∷◌, ◌++◌, length, append-nil,
  append_assoc, inl, inr,
}
use openoscamp_2025s.Base.Fault.{Exec, done, fault, ◌>>=◌, Exec-cases}
use openoscamp_2025s.Base.Future.{Poll, ready, pending}
use openoscamp_2025s.Executor.{
  Waker, noop, wakes, TaskImpl, task_ready, task_pending, Script, ret, wake, spawn, read, abort,
  Heap, wake_by, notify, put_cell, exclusive_access, spawn_task, abort_task, read_task, perform,
  settle, poll_task, poll_wakeable, pop_front, poll_count, round,
}

module _ {F O : Type 0} where
  -- The heap with more tasks before those of its queue.
  abbrev pub ahead : List ℕ → Heap F O → Heap F O
  ahead p h = record h { queue = p ++ h.queue }

  abbrev pub shift : {A : Type 0} → List ℕ → Exec (A × Heap F O) → Exec (A × Heap F O)
  shift p m = m >>= λ r. done (r.0, ahead p r.1)

  -- What a call does depends on the tasks that wait in the queue in no way, and it leaves them there.
  abbrev pub Frames : {A : Type 0} → (Heap F O → Exec (A × Heap F O)) → Type 0
  Frames f = (p : List ℕ) (h : Heap F O) → f (ahead p h) ≡ shift p (f h)

  bind-Frames :
      {A B : Type 0} (p : List ℕ) (m : Exec (A × Heap F O)) (f : A → Heap F O → Exec (B × Heap F O))
      → ((a : A) → Frames (f a))
      → (shift p m >>= λ r. f r.0 r.1) ≡ shift p (m >>= λ r. f r.0 r.1)
  bind-Frames p (done (a, h)) f k = k a p h
  bind-Frames p (fault e) f k = refl

  wake_by-ahead :
      (p : List ℕ) (h : Heap F O) (w : Waker) → wake_by (ahead p h) w ≡ ahead p (wake_by h w)
  unfolding wake_by
  wake_by-ahead p h noop = refl
  wake_by-ahead p h (wakes id) =
      ap (λ (q : List ℕ). record h { queue = q }) (append_assoc p h.queue (id ∷ []))

  notify-ahead :
      (p : List ℕ) (h : Heap F O) (w : Option Waker) → notify (ahead p h) w ≡ ahead p (notify h w)
  unfolding notify
  notify-ahead p h none = refl
  notify-ahead p h (some w) = wake_by-ahead p h w

  spawn_task-ahead :
      (p : List ℕ) (h : Heap F O) (fut : F)
      → spawn_task (ahead p h) fut ≡ ((spawn_task h fut).0, ahead p (spawn_task h fut).1)
  unfolding spawn_task
  spawn_task-ahead p h fut =
      ap
        (λ (q : List ℕ). (
          length h.cells,
          record { cells = h.cells ++ some (task_pending fut none) ∷ []; queue = q },
        ))
        (append_assoc p h.queue (length h.cells ∷ []))

  access-ahead :
      (p : List ℕ) (h : Heap F O) (id : ℕ) → exclusive_access (ahead p h) id ≡ exclusive_access h id
  unfolding exclusive_access
  access-ahead p h id = refl

  read_task-Frames : (id : ℕ) (w : Waker) → Frames (λ h. read_task h id w)
  unfolding read_task
  read_task-Frames id w p h = elim (Exec-cases (exclusive_access h id)) [
    | inl (t, e) ↦ rw (access-ahead p h id, e)
    | inr (x, e) ↦ rw (access-ahead p h id, e)
  ]

  abort_task-ahead :
      (p : List ℕ) (h : Heap F O) (id : ℕ)
      → abort_task (ahead p h) id ≡ (abort_task h id >>= λ h'. done (ahead p h'))
  unfolding abort_task
  abort_task-ahead p h id = elim (Exec-cases (exclusive_access h id)) [
    | inl (t, e) ↦ rw (access-ahead p h id, e)
    | inr (x, e) ↦ rw (access-ahead p h id, e)
  ]

  perform-Frames : {A : Type 0} (s : Script F O A) → Frames (perform s)
  unfolding perform
  perform-Frames (ret a) p h = refl
  perform-Frames (wake w s) p h = rw (wake_by-ahead p h w) (perform-Frames s p (wake_by h w))
  perform-Frames (spawn fut k) p h =
      rw (spawn_task-ahead p h fut) (perform-Frames (k (spawn_task h fut).0) p (spawn_task h fut).1)
  perform-Frames (read id w k) p h =
      rw (read_task-Frames id w p h)
        (bind-Frames p (read_task h id w) (λ o. perform (k o)) (λ o. perform-Frames (k o)))
  perform-Frames (abort id s) p h = elim (Exec-cases (abort_task h id)) [
    | inl (h', e) ↦ rw (abort_task-ahead p h id, e) (perform-Frames s p h')
    | inr (x, e) ↦ rw (abort_task-ahead p h id, e)
  ]

  settle-ahead :
      (p : List ℕ) (id : ℕ) (w : Option Waker) (o : Poll O × F) (h : Heap F O)
      → settle id w o (ahead p h) ≡ ((settle id w o h).0, ahead p (settle id w o h).1)
  unfolding settle
  settle-ahead p id w (pending, fut) h = refl
  settle-ahead p id w (ready val, fut) h =
      ap (λ (g : Heap F O). (ready tt, g))
        (notify-ahead p (put_cell h id (some (task_ready (ready val)))) w)

  module _ (resume : F → ℕ → Script F O (Poll O × F)) where
    poll_task-Frames : (id : ℕ) (t : TaskImpl F O) → Frames (λ h. poll_task resume h id t)
    unfolding poll_task
    poll_task-Frames id (task_ready val) p h = refl
    poll_task-Frames id (task_pending fut w) p h =
        rw (perform-Frames (resume fut id) p (put_cell h id none)) (
          bind-Frames p (perform (resume fut id) (put_cell h id none))
            (λ o g. done (settle id w o g)) (λ o q g. ap done (settle-ahead q id w o g)))

    poll_wakeable-Frames : (id : ℕ) → Frames (λ h. poll_wakeable resume h id)
    unfolding poll_wakeable
    poll_wakeable-Frames id p h = elim (Exec-cases (exclusive_access h id)) [
      | inl (t, e) ↦ rw (access-ahead p h id, e) (poll_task-Frames id t p h)
      | inr (x, e) ↦ rw (access-ahead p h id, e)
    ]

    -- Each of the tasks is polled once, in their order.
    unfoldable pub poll_all : List ℕ → Heap F O → Exec (Heap F O)
    poll_all [] h = done h
    poll_all (id ∷ q) h = poll_wakeable resume h id >>= λ r. poll_all q r.1

    poll_count_lem :
        (q : List ℕ) (h : Heap F O) → poll_count resume (length q) (ahead q h) ≡ poll_all q h
    unfolding poll_count poll_all pop_front
    poll_count_lem [] h = refl
    poll_count_lem (id ∷ q) h = elim (Exec-cases (poll_wakeable resume h id)) [
      | inl (r, e) ↦ rw (poll_wakeable-Frames id q h, e) (poll_count_lem q r.1)
      | inr (x, e) ↦ rw (poll_wakeable-Frames id q h, e)
    ]

    -- A round of `block_on`, for futures that do not call `block_on` of the same executor themselves,
    -- polls exactly the tasks that are in the queue when it starts, in their order, each as often as it
    -- was waked, and starting from an empty queue: what is waked or spawned meanwhile is left for the next
    -- round. What the polls do is then all that can panic in it.
    pub round-eq-poll_all :
        (h : Heap F O) → round resume h ≡ poll_all h.queue (record h { queue = [] })
    unfolding round
    round-eq-poll_all h =
        ap (λ (q : List ℕ). poll_count resume (length h.queue) (record h { queue = q }))
          (sym (append-nil h.queue))
        ∙ poll_count_lem h.queue (record h { queue = [] })
