-- ===== src/Shm/Layout.antt =====
-- The layout that `create` of examples/evering-ipc/src/shm.rs gives to the shared memory.
use openoscamp_2025s.Base.{
  ℕ, ◌+◌, ◌*◌, ◌%◌, ◌^◌, ◌≤◌, ◌<◌, ◌≡◌, refl, false, some, arith, lt→ltb, ==_of_ne,
}
use openoscamp_2025s.Base.Fault.{done, Result, ok}
use openoscamp_2025s.Uring.{Header, size_a, size_b}
use openoscamp_2025s.Shm.{
  MemLayout, layout_array, checked_add, align_up, ShmHeader, create_offsets, shm_mmap, create,
}
use openoscamp_2025s.Shm.Align.{checked_add_lem, align_up_to}

-- The header, the two buffers and what is free lie behind each other in a memory of so many bytes.
pub record IsLaidOut (self_size : ℕ) (t_a t_b : MemLayout) (n_a n_b size buf_a buf_b cur : ℕ)
    : Type 0 where
  pub a_after_header : self_size ≤ buf_a
  pub a_aligned : buf_a % t_a.align ≡ 0
  pub b_after_a : buf_a + t_a.size * n_a ≤ buf_b
  pub b_aligned : buf_b % t_b.align ≡ 0
  pub free_after_b : buf_b + t_b.size * n_b ≤ cur
  pub inside : cur < size

layout_array_lem :
    (t : MemLayout) (n : ℕ)
    → t.size * n + t.align < 2 ^ 63
    → layout_array t n ≡ some (record t { size = t.size * n })
layout_array_lem t n fit = ground arith

offsets_compute :
    (self_size : ℕ) (t_a t_b : MemLayout) (n_a n_b buf_a buf_b : ℕ)
    → layout_array t_a n_a ≡ some (record t_a { size = t_a.size * n_a })
    → align_up self_size t_a.align ≡ done buf_a
    → checked_add buf_a (t_a.size * n_a) ≡ done (buf_a + t_a.size * n_a)
    → layout_array t_b n_b ≡ some (record t_b { size = t_b.size * n_b })
    → align_up (buf_a + t_a.size * n_a) t_b.align ≡ done buf_b
    → checked_add buf_b (t_b.size * n_b) ≡ done (buf_b + t_b.size * n_b)
    → create_offsets self_size t_a t_b n_a n_b ≡ done (buf_a, buf_b, buf_b + t_b.size * n_b)
unfolding create_offsets
offsets_compute self_size t_a t_b n_a n_b buf_a buf_b e1 e2 e3 e4 e5 e6 =
    rw (e1, e2, e3, e4, e5, e6)

pub create_offsets_lem :
    (self_size : ℕ) (t_a t_b : MemLayout) (n_a n_b size ka kb : ℕ)
    → t_a.align ≡ 2 ^ ka
    → t_b.align ≡ 2 ^ kb
    → ka < 63
    → kb < 63
    → self_size + t_a.size * n_a + t_a.align + t_b.size * n_b + t_b.align ≤ size
    → size < 2 ^ 63
    → (buf_a buf_b cur : ℕ) × (create_offsets self_size t_a t_b n_a n_b ≡ done (buf_a, buf_b, cur))
      × IsLaidOut self_size t_a t_b n_a n_b size buf_a buf_b cur
create_offsets_lem self_size t_a t_b n_a n_b size ka kb ea eb la lb fit small =
    let (buf_a, ra, ha) =
      align_up_to t_a.align ka self_size ea (omega arith) (omega (arith, fit, small)) in
    let ca : ℕ = buf_a + t_a.size * n_a in
    let below_a : ca < self_size + t_a.align + t_a.size * n_a = omega (arith, ha.least) in
    let (buf_b, rb, hb) =
      align_up_to t_b.align kb ca eb (omega arith) (omega (arith, fit, small, below_a)) in
    let cb : ℕ = buf_b + t_b.size * n_b in
    let below_b : cb < ca + t_b.align + t_b.size * n_b = omega (arith, hb.least) in
    let inside : cb < size = omega (arith, fit, below_a, below_b) in
    (
      buf_a,
      buf_b,
      cb,
      offsets_compute self_size t_a t_b n_a n_b buf_a buf_b
          (layout_array_lem t_a n_a (omega (arith, fit, small))) ra
          (checked_add_lem buf_a (t_a.size * n_a) (omega (arith, fit, small, below_a)))
          (layout_array_lem t_b n_b (omega (arith, fit, small))) rb
          (checked_add_lem buf_b (t_b.size * n_b) (omega (arith, small, inside))),
      record {
        a_after_header = ha.above;
        a_aligned = ha.multiple;
        b_after_a = hb.above;
        b_aligned = hb.multiple;
        free_after_b = omega arith;
        inside = inside;
      },
    )

module _ {E Ext Z : Type 0} where
  -- `create`, for element types with alignments of powers of two and a memory that has room for the
  -- header, the two buffers and a gap of one alignment before each: if the system calls succeed it
  -- returns the mapping and a header whose buffers are aligned, in the memory, and apart from the
  -- header, from each other and from the free memory, which is not empty and not given away yet.
  pub create_lem :
      (ftruncate : ℕ → Result (Unit {0}) E) (mmap : ℕ → Result ℕ E) (new : Z) (self_size : ℕ)
      (t_a t_b : MemLayout) (size : ℕ) (header : Header Ext) (ka kb start : ℕ)
      → t_a.align ≡ 2 ^ ka
      → t_b.align ≡ 2 ^ kb
      → ka < 63
      → kb < 63
      → self_size + t_a.size * size_a header + t_a.align + t_b.size * size_b header + t_b.align
        ≤ size
      → size < 2 ^ 63
      → ftruncate size ≡ ok tt
      → mmap size ≡ ok start
      → (h : ShmHeader Ext Z) × (create ftruncate mmap new self_size t_a t_b size header
          ≡ done (ok (start, h)))
        × (h.header ≡ header)
        × (h.allocator_taken ≡ false)
        × (h.free_memory.1 ≡ size)
        × IsLaidOut self_size t_a t_b
            (size_a header)
            (size_b header)
            size
            h.buf_a
            h.buf_b
            h.free_memory.0
  unfolding create shm_mmap
  create_lem ftruncate mmap new self_size t_a t_b size header ka kb start ea eb la lb fit small
        grown mapped =
      let (buf_a, buf_b, cur, e, l) =
        create_offsets_lem self_size t_a t_b (size_a header) (size_b header) size ka kb ea eb la lb
          fit small in
      let inside : cur < size = l.inside in
      let h : ShmHeader Ext Z = record {
        header = header;
        buf_a = buf_a;
        buf_b = buf_b;
        allocator_taken = false;
        allocator = new;
        free_memory = (cur, size);
      } in
      (
        h,
        rw (e, lt→ltb cur size inside, grown, ==_of_ne size 0 (λ z. omega (arith, z)), mapped),
        refl,
        refl,
        refl,
        l,
      )
