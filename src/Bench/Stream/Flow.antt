-- ===== src/Bench/Stream/Flow.antt =====
-- The loops over a stream end, and move exactly the bytes that they are to move.
use openoscamp_2025s.Base.{
  ℕ, zero, suc, ◌+◌, ◌-◌, ◌≤◌, ◌<◌, ◌≡◌, ◌⊎◌, inl, inr, refl, sym, ap, ◌∙◌, true, List, [], ◌∷◌,
  ◌++◌, append-nil, append_assoc, length, length-append, take, drop, leb, ◌==◌, ==_iff, ne_of_test,
  ==_of_ne, ◌≢◌, arith, Bool-cases,
}
use openoscamp_2025s.Base.Fault.{done, fault, out_of_fuel, Result, ok, err}
use openoscamp_2025s.Bench.Stream.{after_write, after_read, write_all, read_exact}

le_leb : (a b : ℕ) → a ≤ b → leb a b ≡ true
le_leb a b h = ground arith

length-drop : (n : ℕ) (l : List ℕ) → length (drop n l) + n ≤ length l + (n - length l)
length-drop zero l = omega arith
length-drop (suc n) [] = omega arith
length-drop (suc n) (x ∷ l) = omega (arith, length-drop n l)

-- What is taken, and what is then taken of the rest, is a start of the list.
take-drop : (n k : ℕ) (l : List ℕ) → n ≤ length l → take n l ++ take k (drop n l) ≡ take (n + k) l
take-drop zero k l le = ap (λ (t : ℕ). take t l) (omega arith)
take-drop (suc n) k [] le = absurd (omega arith)
take-drop (suc n) k (x ∷ l) le =
    ap (λ r. x ∷ r) (take-drop n k l (omega arith))
    ∙ ap (λ (t : ℕ). take t (x ∷ l)) (let e : suc (n + k) ≡ suc n + k = omega arith in e)

take_all : (l : List ℕ) → take (length l) l ≡ l
take_all [] = refl
take_all (x ∷ l) = ap (λ r. x ∷ r) (take_all l)

take_whole : (n : ℕ) (l : List ℕ) → n ≤ length l → take n l ++ drop n l ≡ l
take_whole zero l le = refl
take_whole (suc n) [] le = absurd (omega arith)
take_whole (suc n) (x ∷ l) le = ap (λ r. x ∷ r) (take_whole n l (omega arith))

module _ {C E : Type 0} (write_bytes : C → List ℕ → Result ℕ E × C) (sent : C → List ℕ) where
  -- A write of some bytes fails and sends nothing, or sends at least one of them, the first ones.
  abbrev pub Sends : C → ℕ → List ℕ → Type 0
  Sends c b rest =
      ((e : E) × (c' : C) × (write_bytes c (b ∷ rest) ≡ (err e, c')) × (sent c' ≡ sent c))
      ⊎ ((n : ℕ) × (c' : C) × (write_bytes c (b ∷ rest) ≡ (ok n, c'))
          × (1 ≤ n)
          × (n ≤ length (b ∷ rest))
          × (sent c' ≡ sent c ++ take n (b ∷ rest)))

  -- `write_all` ends, within one more round than there are bytes, on a stream that sends at least one
  -- byte with each write that does not fail. If it succeeds, all bytes were sent, in order and once; if
  -- it fails, a start of them was.
  pub write_all_lem :
      ((c : C) (b : ℕ) (rest : List ℕ) → Sends c b rest)
      → (fuel : ℕ) (c : C) (bytes : List ℕ) → length bytes < fuel
      → ((c' : C) × (write_all write_bytes fuel c bytes ≡ done (ok tt, c'))
          × (sent c' ≡ sent c ++ bytes))
        ⊎ ((e : E) × (k : ℕ) × (c' : C) × (write_all write_bytes fuel c bytes ≡ done (err e, c'))
            × (sent c' ≡ sent c ++ take k bytes))
  unfolding write_all after_write
  write_all_lem sends zero c bytes lt = absurd (omega arith)
  write_all_lem sends (suc fuel) c [] lt = inl (c, refl, sym (append-nil (sent c)))
  write_all_lem sends (suc fuel) c (b ∷ rest) lt = elim (sends c b rest) [
    | inl (e, c', w, s) ↦ inr (e, 0, c', rw w refl, s ∙ sym (append-nil (sent c)))
    | inr (n, c', w, pos, le, s) ↦
        elim (write_all_lem sends fuel c' (drop n (b ∷ rest))
          (omega (arith, length-drop n (b ∷ rest)))) [
            | inl (c2, w2, s2) ↦ inl (
              c2,
              rw (w, le_leb n (length (b ∷ rest)) le, w2) refl,
              s2
                  ∙ ap (λ l. l ++ drop n (b ∷ rest)) s
                  ∙ append_assoc (sent c) (take n (b ∷ rest)) (drop n (b ∷ rest))
                  ∙ ap (λ l. sent c ++ l) (take_whole n (b ∷ rest) le),
            )
            | inr (e, k, c2, w2, s2) ↦ inr (
              e,
              n + k,
              c2,
              rw (w, le_leb n (length (b ∷ rest)) le, w2) refl,
              s2
                  ∙ ap (λ l. l ++ take k (drop n (b ∷ rest))) s
                  ∙ append_assoc (sent c) (take n (b ∷ rest)) (take k (drop n (b ∷ rest)))
                  ∙ ap (λ l. sent c ++ l) (take-drop n k (b ∷ rest) le),
            )
          ]
  ]

module _ {C E : Type 0} (read : C → ℕ → Result (List ℕ) E × C) where
  module _ (incoming : C → List ℕ) where
    -- A read of at most `size` bytes fails and takes nothing, or takes at least one and at most so many.
    abbrev pub Takes : C → ℕ → Type 0
    Takes c size =
        ((e : E) × (c' : C) × (read c size ≡ (err e, c')) × (incoming c ≡ incoming c'))
        ⊎ ((bs : List ℕ) × (c' : C) × (read c size ≡ (ok bs, c'))
            × (1 ≤ length bs)
            × (length bs ≤ size)
            × (incoming c ≡ bs ++ incoming c'))

    -- `read_exact` ends, within as many rounds as there are bytes to read, on a stream of which each
    -- read that does not fail takes a byte, and it never subtracts too much. If it succeeds, exactly
    -- the next `size` bytes are in the buffer; if it fails, fewer are, and those were taken.
    pub read_exact_lem :
        ((c : C) (size : ℕ) → 1 ≤ size → Takes c size)
        → (fuel : ℕ) (c : C) (size : ℕ) (got : List ℕ) → 1 ≤ size
        → size ≤ fuel
        → ((bs : List ℕ) × (c' : C) × (read_exact read fuel c size got
              ≡ done (ok tt, got ++ bs, c'))
            × (length bs ≡ size)
            × (incoming c ≡ bs ++ incoming c'))
          ⊎ ((e : E) × (bs : List ℕ) × (c' : C) × (read_exact read fuel c size got
                ≡ done (err e, got ++ bs, c'))
              × (length bs < size)
              × (incoming c ≡ bs ++ incoming c'))
    unfolding read_exact after_read
    read_exact_lem takes zero c size got pos le = absurd (omega arith)
    read_exact_lem takes (suc fuel) c size got pos le = elim (takes c size pos) [
      | inl (e, c', r, i) ↦ inr (e, [], c', rw (r, append-nil got) refl, pos, i)
      | inr (bs, c', r, some_read, fits, i) ↦ elim (Bool-cases (size - length bs == 0)) [
        | inl t ↦ inl (
          bs,
          c',
          rw (r, le_leb (length bs) size fits, t) refl,
          omega (arith, (==_iff (size - length bs) 0).0 t, fits),
          i,
        )
        | inr f ↦
            let more : size - length bs ≢ 0 = ne_of_test (size - length bs) 0 f in
            elim (read_exact_lem takes fuel c' (size - length bs) (got ++ bs) (omega (arith, more))
              (omega arith)) [
                | inl (bs2, c2, r2, l2, i2) ↦ inl (
                  bs ++ bs2,
                  c2,
                  rw (r, le_leb (length bs) size fits, f, r2, append_assoc got bs bs2) refl,
                  omega (arith, length-append bs bs2, l2, fits),
                  i ∙ ap (λ l. bs ++ l) i2 ∙ sym (append_assoc bs bs2 (incoming c2)),
                )
                | inr (e, bs2, c2, r2, l2, i2) ↦ inr (
                  e,
                  bs ++ bs2,
                  c2,
                  rw (r, le_leb (length bs) size fits, f, r2, append_assoc got bs bs2) refl,
                  omega (arith, length-append bs bs2, l2, fits),
                  i ∙ ap (λ l. bs ++ l) i2 ∙ sym (append_assoc bs bs2 (incoming c2)),
                )
              ]
      ]
    ]

  -- At the end of a stream, where a read returns no bytes and no error, `read_exact` does not end: it
  -- uses up any number of rounds.
  pub read_exact_spins :
      (c : C) (size : ℕ) (got : List ℕ)
      → ((n : ℕ) → read c n ≡ (ok [], c))
      → 1 ≤ size
      → (fuel : ℕ) → read_exact read fuel c size got ≡ fault out_of_fuel
  unfolding read_exact after_read
  read_exact_spins c size got ended pos zero = refl
  read_exact_spins c size got ended pos (suc fuel) =
      rw
        (
          ended size,
          le_leb 0 size (omega arith),
          whole size,
          ==_of_ne size 0 (λ e. omega (arith, e, pos)),
          append-nil got,
          read_exact_spins c size got ended pos fuel,
        )
        refl
    where
      whole : (n : ℕ) → n - 0 ≡ n
      whole n = omega arith
