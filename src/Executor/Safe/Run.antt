-- ===== src/Executor/Safe/Run.antt =====
-- `block_on` of local-executor never panics, if the futures use the executor as they should.
use mathlib.Core.Option.{none-ne-some}
use openoscamp_2025s.Base.{
  ℕ, zero, suc, ◌≤◌, ◌<◌, ◌≡◌, refl, ◌∙◌, ◌⊎◌, inl, inr, Option, none, some, List, [], ◌∷◌,
  get_elem?, arith,
}
use openoscamp_2025s.Base.Fault.{done, fault, out_of_fuel}
use openoscamp_2025s.Base.Future.{Poll, ready, pending}
use openoscamp_2025s.Executor.{
  Waker, TaskImpl, task_ready, task_pending, Script, Heap, new_executor, notify, put_cell,
  exclusive_access, perform, settle, poll_task, poll_wakeable, round, block_on,
}
use openoscamp_2025s.Executor.Round.{poll_all, round-eq-poll_all}
use openoscamp_2025s.Executor.Behaves.{
  InRange, AreInRange, InRange-mono, AreInRange-mono, Behaves, IsFine, IsSound, wake_by-IsSound,
  put_back-IsSound, take_out-IsSound,
}
use openoscamp_2025s.Executor.Safe.{perform-IsSound, other}

module _ {F O : Type 0} (Good : ℕ → ℕ → F → Type 0)
    (mono : (i n m : ℕ) (f : F) → n ≤ m → Good i n f → Good i m f)
    (resume : F → ℕ → Script F O (Poll O × F))
    (resumes : (i n : ℕ) (f : F)
      → Good i n f
      → Behaves {O = O} Good (λ m (r : Poll O × F). Good i m r.1) (some i) n (resume f i)) where
  AreWakers : ℕ → Option Waker → Type 0
  AreWakers n none = Unit {0}
  AreWakers n (some w) = InRange n w

  split_fine :
      (n i : ℕ) (f : F) (w : Option Waker)
      → IsFine {O = O} Good n i (task_pending f w)
      → Good i n f × AreWakers n w
  unfolding IsFine AreWakers
  split_fine n i f none g = (g, tt)
  split_fine n i f (some w) g = g

  wakers-IsFine :
      (n i : ℕ) (f : F) (w : Option Waker)
      → Good i n f
      → AreWakers n w
      → IsFine {O = O} Good n i (task_pending f w)
  unfolding IsFine AreWakers
  wakers-IsFine n i f none g u = g
  wakers-IsFine n i f (some w) g u = (g, u)

  AreWakers-mono : (n m : ℕ) (w : Option Waker) → n ≤ m → AreWakers n w → AreWakers m w
  unfolding AreWakers
  AreWakers-mono n m none le u = tt
  AreWakers-mono n m (some w) le u = InRange-mono n m w le u

  notify-IsSound :
      (n : ℕ) (h : Heap F O) (w : Option Waker)
      → IsSound Good n none h
      → AreWakers n w
      → IsSound Good n none (notify h w)
  unfolding notify AreWakers
  notify-IsSound n h none s u = s
  notify-IsSound n h (some w) s u = wake_by-IsSound Good n none h w s u

  settle-IsSound :
      (n id : ℕ) (w : Option Waker) (r : Poll O × F) (h : Heap F O)
      → IsSound Good n (some id) h
      → id < n
      → Good id n r.1
      → AreWakers n w
      → IsSound Good n none (settle id w r h).1
  unfolding settle IsFine
  settle-IsSound n id w (pending, f) h s lt g u =
      put_back-IsSound Good n h id (task_pending f w) s lt (wakers-IsFine n id f w g u)
  settle-IsSound n id w (ready v, f) h s lt g u =
      notify-IsSound n (put_cell h id (some (task_ready (ready v)))) w
        (put_back-IsSound Good n h id (task_ready (ready v)) s lt tt) u

  Polls : ℕ → ℕ → Heap F O → Type 0
  Polls n id h =
      (m : ℕ) × (r : Poll (Unit {0}) × Heap F O) × (poll_wakeable resume h id ≡ done r)
      × (n ≤ m)
      × IsSound Good m none r.1

  poll_found :
      (n id : ℕ) (h : Heap F O) (t : TaskImpl F O)
      → IsSound Good n none h
      → id < n
      → get_elem? h.cells id ≡ some (some t)
      → IsFine Good n id t
      → Polls n id h
  unfolding Polls poll_wakeable exclusive_access poll_task
  poll_found n id h (task_ready v) s lt e fine = (n, (ready tt, h), rw e, omega arith, s)
  poll_found n id h (task_pending f w) s lt e fine =
      let (g, u) = split_fine n id f w fine in
      let (m, r, h', q, le, good, s') =
        perform-IsSound Good mono (λ k (r : Poll O × F). Good id k r.1) (some id) n (resume f id)
          (put_cell h id none) (resumes id n f g) (take_out-IsSound Good n h id s) in
      (
        m,
        settle id w r h',
        rw (e, q),
        le,
        settle-IsSound m id w r h' s' (omega arith) good (AreWakers-mono n m w le u),
      )

  poll_wakeable-IsSound : (n id : ℕ) (h : Heap F O) → IsSound Good n none h → id < n → Polls n id h
  poll_wakeable-IsSound n id h s lt =
      let (t, e, fine) = other Good mono n none h id s lt (none-ne-some id) in
      poll_found n id h t s lt e fine

  poll_all-IsSound :
      (n : ℕ) (q : List ℕ) (h : Heap F O)
      → AreInRange n q
      → IsSound Good n none h
      → (m : ℕ) × (h' : Heap F O) × (poll_all resume q h ≡ done h')
        × (n ≤ m)
        × IsSound Good m none h'
  unfolding poll_all AreInRange Polls
  poll_all-IsSound n [] h r s = (n, h, refl, omega arith, s)
  poll_all-IsSound n (id ∷ q) h (lt, r) s =
      let (m, x, e, le, s') = poll_wakeable-IsSound n id h s lt in
      let (m', h', e', le', s'') = poll_all-IsSound m q x.1 (AreInRange-mono n m q le r) s' in
      (m', h', rw e e', omega arith, s'')

  pub round-IsSound :
      (n : ℕ) (h : Heap F O)
      → IsSound Good n none h
      → (m : ℕ) × (h' : Heap F O) × (round resume h ≡ done h') × (n ≤ m) × IsSound Good m none h'
  unfolding AreInRange
  round-IsSound n h s =
      let (m, h', e, le, s') =
        poll_all-IsSound n h.queue (record h { queue = [] }) s.waked
          (record { size = s.size; sound = s.sound; waked = tt }) in
      (m, h', round-eq-poll_all resume h ∙ e, le, s')

  module _ {M T : Type 0} (GoodMain : ℕ → M → Type 0) (main : M → Script F O (Poll T × M))
      (mains : (n : ℕ) (f : M)
        → GoodMain n f
        → Behaves {O = O} Good (λ m (r : Poll T × M). GoodMain m r.1) none n (main f))
      (main_mono : (n m : ℕ) (f : M) → n ≤ m → GoodMain n f → GoodMain m f) where
    abbrev pub Outcome : ℕ → M → Heap F O → Type 0
    Outcome fuel f h =
        ((r : T × Heap F O) × (block_on resume main fuel f h ≡ done r)
          × ((m : ℕ) × IsSound Good m none r.1))
        ⊎ (block_on resume main fuel f h ≡ fault out_of_fuel)

    -- The rest of a round, after the main future was polled.
    block_on_rest :
        (fuel m : ℕ) (f : M) (h : Heap F O) (r : Poll T × M) (h' : Heap F O)
        → ((k : ℕ) (g : M) (x : Heap F O) → GoodMain k g → IsSound Good k none x → Outcome fuel g x)
        → perform (main f) h ≡ done (r, h')
        → GoodMain m r.1
        → IsSound Good m none h'
        → Outcome (suc fuel) f h
    unfolding block_on
    block_on_rest fuel m f h (ready output, f') h' again e g s = inl ((output, h'), rw e, (m, s))
    block_on_rest fuel m f h (pending, f') h' again e g s =
        let (k, h'', q, le, s') = round-IsSound m h' s in
        elim (again k f' h'' (main_mono m k f' le g) s') [
          | inl (x, p, i) ↦ inl (x, rw (e, q) p, i)
          | inr p ↦ inr (rw (e, q) p)
        ]

    block_on_sound :
        (fuel n : ℕ) (f : M) (h : Heap F O)
        → GoodMain n f
        → IsSound Good n none h
        → Outcome fuel f h
    unfolding block_on
    block_on_sound zero n f h g s = inr refl
    block_on_sound (suc fuel) n f h g s =
        let (m, r, h', e, le, g', s') =
          perform-IsSound Good mono (λ k (r : Poll T × M). GoodMain k r.1) none n (main f) h
            (mains n f g) s in
        block_on_rest fuel m f h r h' (block_on_sound fuel) e g' s'

    -- `block_on` of a new executor, for any number of rounds, returns with sound tasks or has not
    -- returned yet, and never panics, if what each future does is to touch tasks that exist and never
    -- the task that it runs as: no cell is borrowed twice and the queue never runs empty under the
    -- loop.
    pub block_on_safe : (fuel : ℕ) (f : M) → GoodMain 0 f → Outcome fuel f new_executor
    unfolding AreInRange
    block_on_safe fuel f g =
        block_on_sound fuel 0 f new_executor g
          (record { size = refl; sound = λ i lt. absurd (omega arith); waked = tt })
