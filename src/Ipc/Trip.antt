-- ===== src/Ipc/Trip.antt =====
-- A ping of examples/evering-ipc, from its boxes to the bytes that the other process reads and back.
use mathlib.Core.Option.{none-ne-some}
use openoscamp_2025s.Base.{
  ℕ, zero, suc, ◌+◌, ◌-◌, ◌*◌, ◌^◌, ◌≤◌, ◌<◌, ◌≡◌, refl, sym, ap, ap₂, ◌∙◌, subst, Option, none,
  some, List, [], ◌∷◌, map, arith, length, ◌⊎◌, inl, inr, replicate, length-replicate, Bool-cases,
  leb, Option-cases,
}
use openoscamp_2025s.Base.Fault.{done, done_injective, done≢fault}
use openoscamp_2025s.Server.{ping, pong}
use openoscamp_2025s.Shm.{MemLayout, layout_array}
use openoscamp_2025s.Shm.Share.{get_shm_lem}
use openoscamp_2025s.Shm.Alloc.{IsApart, Tlsf, ShmBox, new_slice, alloc_slice_uninit}
use openoscamp_2025s.Shm.Alloc.Apart.{AreInside, block}
use openoscamp_2025s.Shm.Alloc.Run.{AreBoxes, alloc_cases}
use openoscamp_2025s.Shm.Bytes.{
  Shared, ShmToken, byte, write_cells, read_cells, filled_slice, alloc_slice_copied,
  new_slice_uninit, deref, as_shm, as_ptr,
}
use openoscamp_2025s.Shm.Bytes.Cells.{init_bytes-some}
use openoscamp_2025s.Shm.Bytes.Pair.{made_cells, both-Served}
use openoscamp_2025s.Ipc.{PingData, ping_entry, complete_ping, draws, serve_ping}

pub length-draws : (draw : ℕ → ℕ) (i n : ℕ) → length (draws draw i n) ≡ n
unfolding draws
length-draws draw i zero = refl
length-draws draw i (suc n) = ap suc (length-draws draw (i + 1) n)

length-map : (bs : List ℕ) → length (map some bs) ≡ length bs
length-map [] = refl
length-map (b ∷ bs) = ap suc (length-map bs)

some_inj : {A : Type 0} {x y : A} → some x ≡ some y → x ≡ y
some_inj e = cc

byte_size : (n : ℕ) (l : MemLayout) → layout_array byte n ≡ some l → l.size ≡ n
byte_size n l e = elim (Bool-cases (leb (1 * n) (2 ^ 63 - 1))) [
  | inl t ↦
      let same : record { size = 1 * n; align = 1 } ≡ l = some_inj (rw t at e) in
      ap (λ (y : MemLayout). y.size) (sym same) ∙ omega arith
  | inr t ↦ absurd (none-ne-some _ (rw t at e))
]

-- The bytes of a box, initialised or not.
abbrev pub contents : ℕ → (ℕ → Option ℕ) → ShmBox → List (Option ℕ)
contents start cells o = read_cells cells (o.ptr - start) o.layout.size

-- Boxes that are apart from both boxes of a ping keep their bytes.
contents_kept :
    (start lo hi p1 n1 p2 n2 : ℕ) (m m' : ℕ → Option ℕ) (l : List ShmBox)
    → start ≤ lo
    → AreInside lo hi (map block l)
    → IsApart p1 n1 (map block l)
    → IsApart p2 n2 (map block l)
    → ((q k : ℕ)
        → start ≤ q
        → (p1 + n1 ≤ q) ⊎ (q + k ≤ p1)
        → (p2 + n2 ≤ q) ⊎ (q + k ≤ p2)
        → read_cells m' (q - start) k ≡ read_cells m (q - start) k)
    → map (contents start m') l ≡ map (contents start m) l
unfolding AreInside IsApart
contents_kept start lo hi p1 n1 p2 n2 m m' [] le i a1 a2 same = refl
contents_kept start lo hi p1 n1 p2 n2 m m' (o ∷ l) le (i, _, _, is) (h1, a1) (h2, a2) same =
    ap₂ (λ x r. x ∷ r) (same o.ptr o.layout.size (omega arith) h1 h2)
      (contents_kept start lo hi p1 n1 p2 n2 m m' l le is a1 a2 same)

module _ (tlsf : Tlsf) (start : ℕ) where
  open tlsf use {Z, allocate, pool, live, allocate_some}

  -- What a slice that was made is.
  abbrev Made : Shared Z → List (Option ℕ) → ShmBox → Shared Z → Type 0
  Made w content x w' =
      (x.layout.size ≡ length content)
      × ((pool w.allocator).0 ≤ x.ptr)
      × IsApart x.ptr x.layout.size (live w.allocator)
      × (live w'.allocator ≡ (x.ptr, x.layout.size) ∷ live w.allocator)
      × (pool w'.allocator ≡ pool w.allocator)
      × (w'.cells ≡ write_cells w.cells (x.ptr - start) content)

  made :
      (w : Shared Z) (content : List (Option ℕ)) (x : ShmBox) (w' : Shared Z)
      → filled_slice tlsf start w content ≡ done (x, w')
      → Made w content x w'
  unfolding filled_slice new_slice alloc_slice_uninit
  made w content x w' e = elim (Option-cases (layout_array byte (length content))) [
    | inl q ↦ absurd (done≢fault (sym (rw q at e)))
    | inr (l, q) ↦ elim (alloc_cases tlsf w.allocator l) [
      | inl (_, r) ↦ absurd (done≢fault (sym (rw (q, r) at e)))
      | inr (p, s', r, a, z) ↦
          let same : (
            record { ptr = p; layout = l },
            record { allocator = s'; cells = write_cells w.cells (p - start) content },
          )
              ≡ (x, w') =
            done_injective (rw (q, r) at e) in
          let (al, lo, hi, apart, lv, pl) = allocate_some w.allocator s' l p a in
          subst (λ (y : ShmBox × Shared Z). Made w content y.0 y.1) same
            (byte_size (length content) l q, lo, apart, lv, pl, refl)
    ]
  ]

  -- A process whose mapping begins at `start`, with the boxes `boxes`, makes a box with the bytes
  -- `src` and another of `n` bytes, and submits a ping with them. In a process whose mapping begins at
  -- `start'` the server reads exactly `src`, and writes its letters. When the response has come, the
  -- ping gives both boxes back; the first holds `src` and the second the letters, all initialised.
  -- No byte of another box has changed.
  pub ping_trip :
      (start' lo hi value id n token : ℕ) (boxes : List ShmBox) (src : List ℕ) (draw : ℕ → ℕ)
      (w w1 w2 : Shared Z) (req resp : ShmBox)
      → AreBoxes tlsf lo hi (record { allocator = w.allocator; boxes = boxes })
      → start < lo
      → alloc_slice_copied tlsf start w src ≡ done (req, w1)
      → new_slice_uninit tlsf start w1 n ≡ done (resp, w2)
      → (d : PingData) × (cells : ℕ → Option ℕ) × (ping_entry start value id
            (record { req = req; resp = resp })
          ≡ done (record { id = id; payload = ping d }))
        × (serve_ping start' w2.cells draw d ≡ done (src, cells))
        × (complete_ping (record { req = req; resp = resp }) (pong token)
            ≡ done (record { token = token; req = req; resp = resp }))
        × (deref start cells req ≡ done src)
        × (deref start cells resp ≡ done (draws draw 0 n))
        × (map (contents start cells) boxes ≡ map (contents start w.cells) boxes)
  unfolding IsApart alloc_slice_copied new_slice_uninit ping_entry as_shm serve_ping as_ptr deref
      complete_ping
  ping_trip start' lo hi value id n token boxes src draw w w1 w2 req resp g inside e1 e2 =
      let (size1, low1, apart1, live1, pool1, cells1) = made w (map some src) req w1 e1 in
      let (size2, low2, apart2, live2, pool2, cells2) = made w1 (replicate n none) resp w2 e2 in
      let above1 : start < req.ptr = omega (arith, low1, ap (λ (y : ℕ × ℕ). y.0) g.home, inside) in
      let above2 : start < resp.ptr =
        omega
          (arith, low2, ap (λ (y : ℕ × ℕ). y.0) pool1, ap (λ (y : ℕ × ℕ). y.0) g.home, inside) in
      let letters : List ℕ = draws draw 0 resp.layout.size in
      let fit : resp.layout.size ≡ length (map some letters) =
        sym (length-map letters ∙ length-draws draw 0 resp.layout.size) in
      let cells_are : w2.cells ≡ made_cells start req.ptr resp.ptr w.cells src (replicate n none) =
        cells2 ∙ ap (λ m. write_cells m (resp.ptr - start) (replicate n none)) cells1 in
      let (beside, further) : ((resp.ptr + resp.layout.size ≤ req.ptr)
            ⊎ (req.ptr + req.layout.size ≤ resp.ptr))
          × IsApart resp.ptr resp.layout.size (live w.allocator) =
        subst (IsApart resp.ptr resp.layout.size) live1 apart2 in
      let known : live w.allocator ≡ map block boxes = g.known in
      let at_start : (p : ℕ) → start ≤ p → (start' + (p - start)) - start' ≡ p - start =
        λ p le. omega arith in
      let (shown, kept, answered, others) =
        both-Served start req.ptr req.layout.size resp.ptr resp.layout.size w.cells src letters
          (replicate n none) (omega arith) (omega arith) size1 size2 fit beside w2.cells
          cells_are in
      let t1 : ShmToken = record { shm = req.ptr - start; layout = req.layout } in
      let t2 : ShmToken = record { shm = resp.ptr - start; layout = resp.layout } in
      (
        record { value = value; req = t1; resp = t2 },
        write_cells w2.cells (resp.ptr - start) (map some letters),
        rw (get_shm_lem start req.ptr above1, get_shm_lem start resp.ptr above2) refl,
        rw
            (
              at_start req.ptr (omega arith),
              at_start resp.ptr (omega arith),
              shown,
              init_bytes-some src,
            )
            refl,
        refl,
        rw (kept, init_bytes-some src) refl,
        rw (answered, init_bytes-some letters)
            (ap (λ (k : ℕ). done (draws draw 0 k)) (size2 ∙ length-replicate n none)),
        contents_kept start lo hi req.ptr req.layout.size resp.ptr resp.layout.size w.cells
            (write_cells w2.cells (resp.ptr - start) (map some letters)) boxes (omega arith)
            g.inside (subst (IsApart req.ptr req.layout.size) known apart1)
            (subst (IsApart resp.ptr resp.layout.size) known further) others,
      )
