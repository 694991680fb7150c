-- ===== src/Shm/Alloc/Run.antt =====
-- The boxes of examples/evering-ipc/src/shm/boxed.rs have no byte in common.
use openoscamp_2025s.Base.{
  ℕ, ◌+◌, ◌≤◌, ◌<◌, ◌≡◌, refl, sym, ap, ◌∙◌, subst, ◌⊎◌, inl, inr, none, some, List, [], ◌∷◌, map,
  arith, ◌==◌, ==_of_ne, ne_of_test, ◌++◌, ==_iff, Bool-cases, Option-cases,
}
use openoscamp_2025s.Base.Fault.{Exec, done, fault, panic, ◌>>=◌}
use openoscamp_2025s.Shm.{MemLayout, layout_array}
use openoscamp_2025s.Shm.Alloc.{
  IsApart, without, Tlsf, alloc_raw, dealloc_raw, alloc_slice_uninit, new_box, new_slice, drop_box,
}
use openoscamp_2025s.Shm.Alloc.Apart.{
  AreApart, AreInside, without-AreApart, without-AreInside, block, find_box, find_box_lem, BoxAct,
  make, make_slice, drop_at, Boxes,
}

module _ (tlsf : Tlsf) where
  open tlsf use {Z, allocate, pool, live, allocate_some, live-deallocate, pool-deallocate}

  unfoldable pub box_step : Boxes Z → BoxAct → Exec (Boxes Z)
  box_step w (make t) =
      new_box tlsf w.allocator t >>= λ r. done (record { allocator = r.1; boxes = r.0 ∷ w.boxes })
  box_step w (make_slice t n) = new_slice tlsf w.allocator t n >>= λ r.
      done (record { allocator = r.1; boxes = r.0 ∷ w.boxes })
  box_step w (drop_at p) = elim (find_box p w.boxes) [
    | none ↦ done w
    | some r ↦ drop_box tlsf w.allocator r.0 >>= λ s. done (record { allocator = s; boxes = r.1 })
  ]

  unfoldable pub box_run : Boxes Z → List BoxAct → Exec (Boxes Z)
  box_run w [] = done w
  box_run w (x ∷ rest) = box_step w x >>= λ w'. box_run w' rest

  -- The boxes are the blocks that the allocator has handed out.
  pub record AreBoxes (lo hi : ℕ) (w : Boxes Z) : Type 0 where
    pub known : live w.allocator ≡ map block w.boxes
    pub home : pool w.allocator ≡ (lo, hi)
    pub apart : AreApart (map block w.boxes)
    pub inside : AreInside lo hi (map block w.boxes)

  -- Why nothing can be handed out: it is empty, or there is no memory.
  abbrev pub NoRoom : Z → MemLayout → Type 0
  NoRoom s t = (t.size ≡ 0) ⊎ (allocate s t ≡ none)

  -- What makes a call panic: a new box or slice, never a drop.
  abbrev pub Refuses : Boxes Z → BoxAct → Type 0
  Refuses w (make t) = NoRoom w.allocator t
  Refuses w (make_slice t n) =
      (layout_array t n ≡ none)
      ⊎ ((l : MemLayout) × (layout_array t n ≡ some l) × NoRoom w.allocator l)
  Refuses w (drop_at p) = ⊥

  pub alloc_cases :
      (s : Z) (t : MemLayout)
      → (NoRoom s t × (alloc_raw tlsf s t ≡ fault panic))
        ⊎ ((p : ℕ) × (s' : Z) × (alloc_raw tlsf s t ≡ done (p, s'))
            × (allocate s t ≡ some (p, s'))
            × (0 < t.size))
  unfolding alloc_raw
  alloc_cases s t = elim (Bool-cases (t.size == 0)) [
    | inl z ↦ inl (inl ((==_iff t.size 0).0 z), rw z)
    | inr z ↦ elim (Option-cases (allocate s t)) [
      | inl n ↦ inl (inr n, rw (z, n))
      | inr (r, n) ↦ inr (r.0, r.1, rw (z, n), n, omega (arith, ne_of_test t.size 0 z))
    ]
  ]

  -- A block that was handed out, as a box of that layout.
  made-AreBoxes :
      (lo hi : ℕ) (w : Boxes Z) (t : MemLayout) (p : ℕ) (s' : Z)
      → AreBoxes lo hi w
      → allocate w.allocator t ≡ some (p, s')
      → 0 < t.size
      → AreBoxes lo hi (record { allocator = s'; boxes = record { ptr = p; layout = t } ∷ w.boxes })
  unfolding AreApart AreInside
  made-AreBoxes lo hi w t p s' g e z =
      let (al, lo', hi', ap', lv, pl) = allocate_some w.allocator s' t p e in
      record {
        known = lv ∙ ap (λ k. (p, t.size) ∷ k) g.known;
        home = pl ∙ g.home;
        apart = (subst (IsApart p t.size) g.known ap', g.apart);
        inside = (
          subst (λ (k : ℕ × ℕ). k.0 ≤ p) g.home lo',
          subst (λ (k : ℕ × ℕ). p + t.size ≤ k.1) g.home hi',
          z,
          g.inside,
        );
      }

  abbrev StepsTo : ℕ → ℕ → Type 0 → Exec (Boxes Z) → Type 0
  StepsTo lo hi Why m =
      (Why × (m ≡ fault panic)) ⊎ ((w : Boxes Z) × (m ≡ done w) × AreBoxes lo hi w)

  box_step_lem :
      (lo hi : ℕ) (w : Boxes Z) (x : BoxAct)
      → AreBoxes lo hi w
      → StepsTo lo hi (Refuses w x) (box_step w x)
  unfolding box_step new_box new_slice alloc_slice_uninit drop_box dealloc_raw
  box_step_lem lo hi w (make t) g = elim (alloc_cases w.allocator t) [
    | inl (why, e) ↦ inl (why, rw e)
    | inr (p, s', e, n, z) ↦ inr (
      record { allocator = s'; boxes = record { ptr = p; layout = t } ∷ w.boxes },
      rw e,
      made-AreBoxes lo hi w t p s' g n z,
    )
  ]
  box_step_lem lo hi w (make_slice t n) g = elim (Option-cases (layout_array t n)) [
    | inl q ↦ inl (inl q, rw q)
    | inr (l, q) ↦ elim (alloc_cases w.allocator l) [
      | inl (why, e) ↦ inl (inr (l, q, why), rw (q, e))
      | inr (p, s', e, y, z) ↦ inr (
        record { allocator = s'; boxes = record { ptr = p; layout = l } ∷ w.boxes },
        rw (q, e),
        made-AreBoxes lo hi w l p s' g y z,
      )
    ]
  ]
  box_step_lem lo hi w (drop_at p) g = elim (Option-cases (find_box p w.boxes)) [
    | inl q ↦ inr (w, rw (q, box_step), g)
    | inr (r, q) ↦
        let (i, z, m) = find_box_lem p lo hi w.boxes r g.inside q in
        let s : Z = tlsf.deallocate w.allocator r.0.ptr r.0.layout.align in
        inr (
          record { allocator = s; boxes = r.1 },
          rw (q, box_step, ==_of_ne r.0.layout.size 0 (λ e. omega (arith, z, e))),
          record {
            known =
                live-deallocate w.allocator r.0.ptr r.0.layout.align
                ∙ ap (λ (k : ℕ). without k (live w.allocator)) i
                ∙ ap (without p) g.known
                ∙ sym m;
            home = pool-deallocate w.allocator r.0.ptr r.0.layout.align ∙ g.home;
            apart = subst AreApart (sym m) (without-AreApart p (map block w.boxes) g.apart);
            inside =
                subst (AreInside lo hi) (sym m)
                  (without-AreInside p lo hi (map block w.boxes) g.inside);
          },
        )
  ]

  -- A sequence of calls that comes to one that is refused.
  abbrev pub Stops : ℕ → ℕ → Boxes Z → List BoxAct → Type 0
  Stops lo hi w acts =
      (before : List BoxAct) × (x : BoxAct) × (rest : List BoxAct) × (w' : Boxes Z) × (acts
        ≡ before ++ x ∷ rest)
      × (box_run w before ≡ done w')
      × AreBoxes lo hi w'
      × Refuses w' x

  box_run_lem :
      (lo hi : ℕ) (w : Boxes Z) (acts : List BoxAct)
      → AreBoxes lo hi w
      → StepsTo lo hi (Stops lo hi w acts) (box_run w acts)
  unfolding box_run
  box_run_lem lo hi w [] g = inr (w, refl, g)
  box_run_lem lo hi w (x ∷ rest) g = elim (box_step_lem lo hi w x g) [
    | inl (why, e) ↦ inl (([], x, rest, w, refl, refl, g, why), rw e)
    | inr (w', e, g') ↦ elim (box_run_lem lo hi w' rest g') [
      | inl ((before, y, after, w2, q, r, g2, why), e') ↦
          inl ((x ∷ before, y, after, w2, ap (λ l. x ∷ l) q, rw (e, r), g2, why), rw (e, e'))
      | inr (w2, e', g2) ↦ inr (w2, rw (e, e'), g2)
    ]
  ]

  -- From an allocator that has handed out nothing yet, a sequence of new boxes, slices and drops
  -- succeeds; or it panics, and then at a new box that is empty or finds no memory, or at a new slice
  -- that is empty, finds no memory or is too large for a layout, all calls before it having succeeded:
  -- no drop panics. In either case the boxes that are alive when it ends are in the memory of the
  -- allocator, not empty, no two of them have a byte in common, and they are the blocks that the
  -- allocator has handed out.
  pub boxes_apart :
      (lo hi : ℕ) (s : Z) (acts : List BoxAct)
      → pool s ≡ (lo, hi)
      → live s ≡ []
      → (Stops lo hi (record { allocator = s; boxes = [] }) acts
          × (box_run (record { allocator = s; boxes = [] }) acts ≡ fault panic))
        ⊎ ((w : Boxes Z) × (box_run (record { allocator = s; boxes = [] }) acts ≡ done w)
            × AreBoxes lo hi w)
  unfolding AreApart AreInside
  boxes_apart lo hi s acts home new =
      box_run_lem lo hi (record { allocator = s; boxes = [] }) acts
        (record { known = new; home = home; apart = tt; inside = tt })
