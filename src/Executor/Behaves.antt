-- ===== src/Executor/Behaves.antt =====
-- What the executor of local-executor asks of the futures that it runs, and the invariant of its tasks.
use mathlib.Core.Option.{none-ne-some}
use openoscamp_2025s.Base.{
  ℕ, ◌+◌, ◌≤◌, ◌<◌, ◌≡◌, ap, ◌∙◌, subst, ◌≢◌, ◌⊎◌, inl, inr, Option, none, some, List, [], ◌∷◌,
  ◌++◌, length, get_elem?, set, length-set, get_elem?-set_self, get_elem?-set_ne, ==_iff,
  ne_of_test, ◌==◌, Bool-cases, arith,
}
use openoscamp_2025s.Base.Future.{Poll}
use openoscamp_2025s.Executor.{
  Waker, noop, wakes, TaskImpl, task_ready, task_pending, Script, ret, wake, spawn, read, abort,
  Heap, wake_by, put_cell,
}

-- A waker of one of the first n tasks.
unfoldable pub InRange : ℕ → Waker → Type 0
InRange n noop = Unit {0}
InRange n (wakes j) = j < n

unfoldable pub AreInRange : ℕ → List ℕ → Type 0
AreInRange n [] = Unit {0}
AreInRange n (j ∷ q) = (j < n) × AreInRange n q

pub InRange-mono : (n m : ℕ) (w : Waker) → n ≤ m → InRange n w → InRange m w
unfolding InRange
InRange-mono n m noop le r = tt
InRange-mono n m (wakes j) le r = omega arith

pub AreInRange-mono : (n m : ℕ) (q : List ℕ) → n ≤ m → AreInRange n q → AreInRange m q
unfolding AreInRange
AreInRange-mono n m [] le r = tt
AreInRange-mono n m (j ∷ q) le (lt, r) = (omega arith, AreInRange-mono n m q le r)

pub AreInRange-snoc :
    (n : ℕ) (q : List ℕ) (j : ℕ) → AreInRange n q → j < n → AreInRange n (q ++ j ∷ [])
unfolding AreInRange
AreInRange-snoc n [] j r lt = (lt, tt)
AreInRange-snoc n (i ∷ q) j (l, r) lt = (l, AreInRange-snoc n q j r lt)

-- `Good self n f` says which states f a future may have that runs as the task self, among n tasks.
module _ {F O : Type 0} (Good : ℕ → ℕ → F → Type 0) where
  -- A script that touches existing tasks only, other than the one that it runs as, and that returns
  -- what K describes.
  unfoldable pub Behaves : {A : Type 0} → (ℕ → A → Type 0) → Option ℕ → ℕ → Script F O A → Type 0
  Behaves K self n (ret x) = K n x
  Behaves K self n (wake w s) = InRange n w × Behaves K self n s
  Behaves K self n (spawn f k) = Good n (n + 1) f × Behaves K self (n + 1) (k n)
  Behaves K self n (read id w k) =
      (id < n) × (self ≢ some id) × InRange n w × ((o : Poll O) → Behaves K self n (k o))
  Behaves K self n (abort id s) = (id < n) × (self ≢ some id) × Behaves K self n s

  unfoldable pub IsFine : ℕ → ℕ → TaskImpl F O → Type 0
  IsFine n i (task_ready val) = Unit {0}
  IsFine n i (task_pending fut none) = Good i n fut
  IsFine n i (task_pending fut (some w)) = Good i n fut × InRange n w

  -- The cells of a heap with n tasks, of which busy is being polled.
  abbrev pub AreSound : ℕ → Option ℕ → List (Option (TaskImpl F O)) → Type 0
  AreSound n busy cells =
      (i : ℕ)
      → i < n
      → ((t : TaskImpl F O) × (get_elem? cells i ≡ some (some t)) × IsFine n i t) ⊎ (busy ≡ some i)

  pub record IsSound (n : ℕ) (busy : Option ℕ) (h : Heap F O) : Type 0 where
    pub size : length h.cells ≡ n
    pub sound : AreSound n busy h.cells
    pub waked : AreInRange n h.queue

  pub wake_by-IsSound :
      (n : ℕ) (busy : Option ℕ) (h : Heap F O) (w : Waker)
      → IsSound n busy h
      → InRange n w
      → IsSound n busy (wake_by h w)
  unfolding wake_by InRange
  wake_by-IsSound n busy h noop s r = s
  wake_by-IsSound n busy h (wakes j) s r = record {
    size = s.size;
    sound = s.sound;
    waked = AreInRange-snoc n h.queue j s.waked r;
  }

  -- A task that is put in its place, which may be the one that is being polled.
  pub put-AreSound :
      (n : ℕ) (busy : Option ℕ) (cells : List (Option (TaskImpl F O))) (id : ℕ) (t : TaskImpl F O)
      → length cells ≡ n
      → id < n
      → IsFine n id t
      → ((i : ℕ)
          → i < n
          → id ≢ i
          → ((t : TaskImpl F O) × (get_elem? cells i ≡ some (some t)) × IsFine n i t)
            ⊎ (busy ≡ some i))
      → AreSound n busy (set cells id (some t))
  put-AreSound n busy cells id t l lt fine s i lti = elim (Bool-cases (id == i)) [
    | inl e ↦
        let same : id ≡ i = (==_iff id i).0 e in
        inl (
          t,
          subst (λ k. get_elem? (set cells id (some t)) k ≡ some (some t)) same
              (get_elem?-set_self cells id (some t) (omega arith)),
          subst (λ k. IsFine n k t) same fine,
        )
    | inr e ↦ elim (s i lti (ne_of_test id i e)) [
      | inl (u, g, f) ↦ inl (u, get_elem?-set_ne cells id i (some t) (ne_of_test id i e) ∙ g, f)
      | inr q ↦ inr q
    ]
  ]

  pub put_cell-IsSound :
      (n : ℕ) (busy : Option ℕ) (h : Heap F O) (id : ℕ) (t : TaskImpl F O)
      → IsSound n busy h
      → id < n
      → IsFine n id t
      → IsSound n busy (put_cell h id (some t))
  put_cell-IsSound n busy h id t s lt fine = record {
    size = length-set h.cells id (some t) ∙ s.size;
    sound = put-AreSound n busy h.cells id t s.size lt fine (λ i lti ne. s.sound i lti);
    waked = s.waked;
  }

  -- The task that was being polled is put back.
  pub put_back-IsSound :
      (n : ℕ) (h : Heap F O) (id : ℕ) (t : TaskImpl F O)
      → IsSound n (some id) h
      → id < n
      → IsFine n id t
      → IsSound n none (put_cell h id (some t))
  put_back-IsSound n h id t s lt fine = record {
    size = length-set h.cells id (some t) ∙ s.size;
    sound =
        put-AreSound n none h.cells id t s.size lt fine
          (λ i lti ne. elim (s.sound i lti) [ inl f ↦ inl f | inr q ↦ absurd (ne (some_inj q)) ]);
    waked = s.waked;
  }
    where
      some_inj : {i j : ℕ} → some i ≡ some j → i ≡ j
      some_inj e = cc

  -- The task that is taken out to be polled.
  pub take_out-IsSound :
      (n : ℕ) (h : Heap F O) (id : ℕ) → IsSound n none h → IsSound n (some id) (put_cell h id none)
  take_out-IsSound n h id s = record {
    size = length-set h.cells id none ∙ s.size;
    sound = λ i lti. elim (Bool-cases (id == i)) [
      | inl e ↦ inr (ap some ((==_iff id i).0 e))
      | inr e ↦ elim (s.sound i lti) [
        | inl (u, g, f) ↦ inl (u, get_elem?-set_ne h.cells id i none (ne_of_test id i e) ∙ g, f)
        | inr q ↦ absurd (none-ne-some i q)
      ]
    ];
    waked = s.waked;
  }
