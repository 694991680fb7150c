-- ===== src/Shm/Share.antt =====
-- What the processes that share a memory of examples/evering-ipc/src/shm.rs may rely on: who gets the
-- allocator, and how a pointer of one is read by the other.
use openoscamp_2025s.Base.{
  ℕ, suc, ◌+◌, ◌-◌, ◌*◌, ◌≤◌, ◌<◌, ◌≡◌, refl, ap, ◌∙◌, true, false, Option, none, some, List, [],
  ◌∷◌, arith, leb, lt→ltb, ==_of_ne, if◌then◌else◌, Bool-cases, inl, inr,
}
use openoscamp_2025s.Base.Fault.{Exec, done, fault, panic, Fault, ◌>>=◌}
use openoscamp_2025s.Uring.{size_a, size_b}
use openoscamp_2025s.Shm.{
  MemLayout, ShmHeader, get_allocator, get_shm, get_ptr, no_handles, init_server, init_allocator,
  init_client,
}
use openoscamp_2025s.Shm.Layout.{IsLaidOut}

pub get_shm_lem : (start addr : ℕ) → start < addr → get_shm start addr ≡ done (addr - start)
unfolding get_shm
get_shm_lem start addr lt =
    rw (lt→ltb start addr lt, ==_of_ne (addr - start) 0 (λ e. omega (arith, e)))

-- How a thread joins, and where its mapping begins.
pub data Role : Type 0 where
  client server : (start : ℕ) → Role

unfoldable pub clients : List Role → ℕ
clients [] = 0
clients (client start ∷ rs) = suc (clients rs)
clients (server start ∷ rs) = clients rs

abbrev pub outcome : {A : Type 0} → Exec A → Option Fault
outcome (done v) = none
outcome (fault e) = some e

module _ {Ext Z : Type 0} (append : Z → ℕ → ℕ → Z) where
  get_allocator_free :
      (start : ℕ) (h : ShmHeader Ext Z)
      → h.allocator_taken ≡ false
      → get_allocator append start h
        ≡ done (
          (start + h.free_memory.0, h.free_memory.1 - h.free_memory.0),
          record h {
            allocator_taken = true;
            allocator =
                append h.allocator (start + h.free_memory.0) (h.free_memory.1 - h.free_memory.0);
          },
        )
  unfolding get_allocator
  get_allocator_free start h e = rw e

  -- The process whose mapping begins at `start` takes the allocator. Every pointer into the block that
  -- the allocator is given can be sent: `get_shm` does not panic, and what `get_ptr` makes of it in
  -- a mapping that begins at `start'` is the same byte of the memory, behind both rings.
  pub sent_pointer_lem :
      (self_size : ℕ) (t_a t_b : MemLayout) (size start start' addr : ℕ) (h : ShmHeader Ext Z)
      → 0 < self_size
      → h.allocator_taken ≡ false
      → h.free_memory.1 ≡ size
      → IsLaidOut self_size t_a t_b
          (size_a h.header)
          (size_b h.header)
          size
          h.buf_a
          h.buf_b
          h.free_memory.0
      → start + h.free_memory.0 ≤ addr
      → addr < start + size
      → (h' : ShmHeader Ext Z) × (shm : ℕ) × (get_allocator append start h
          ≡ done ((start + h.free_memory.0, size - h.free_memory.0), h'))
        × (get_shm start addr ≡ done shm)
        × (start + shm ≡ addr)
        × (get_ptr start' shm < start' + size)
        × (start' + h.buf_b + t_b.size * size_b h.header ≤ get_ptr start' shm)
        × (start' + h.buf_a + t_a.size * size_a h.header ≤ start' + h.buf_b)
  sent_pointer_lem self_size t_a t_b size start start' addr h pos free end l lo hi =
      let a1 : self_size ≤ h.buf_a = l.a_after_header in
      let a2 : h.buf_a + t_a.size * size_a h.header ≤ h.buf_b = l.b_after_a in
      let a3 : h.buf_b + t_b.size * size_b h.header ≤ h.free_memory.0 = l.free_after_b in
      (
        record h {
          allocator_taken = true;
          allocator =
              append h.allocator (start + h.free_memory.0) (h.free_memory.1 - h.free_memory.0);
        },
        addr - start,
        get_allocator_free start h free
            ∙ ap
                (λ (e : ℕ). done (
                  (start + h.free_memory.0, e - h.free_memory.0),
                  record h {
                    allocator_taken = true;
                    allocator =
                        append h.allocator (start + h.free_memory.0)
                          (h.free_memory.1 - h.free_memory.0);
                  },
                ))
                end,
        get_shm_lem start addr (omega (arith, pos, a1, a2, a3)),
        omega arith,
        omega (arith, lo, hi),
        omega (arith, lo, a3),
        omega (arith, a2),
      )

  -- Fresh threads join one after the other.
  unfoldable pub join_one : Role → ShmHeader Ext Z → Exec (ShmHeader Ext Z)
  join_one (client start) h = init_client append start h no_handles >>= λ r. done r.1
  join_one (server start) h = init_server start no_handles >>= λ th. done h

  unfoldable pub join_all : List Role → ShmHeader Ext Z → Exec (ShmHeader Ext Z)
  join_all [] h = done h
  join_all (r ∷ rs) h = join_one r h >>= λ h'. join_all rs h'

  abbrev taken : ShmHeader Ext Z → ℕ
  taken h = if h.allocator_taken then 1 else 0

  join_taken :
      (start : ℕ) (h : ShmHeader Ext Z)
      → h.allocator_taken ≡ true
      → join_one (client start) h ≡ fault panic
  unfolding join_one init_client init_server init_allocator get_allocator
  join_taken start h e = rw e

  join_free :
      (start : ℕ) (h : ShmHeader Ext Z)
      → h.allocator_taken ≡ false
      → (h' : ShmHeader Ext Z) × (join_one (client start) h ≡ done h') × (h'.allocator_taken ≡ true)
  unfolding join_one init_client init_server init_allocator
  join_free start h e = (
    record h {
      allocator_taken = true;
      allocator = append h.allocator (start + h.free_memory.0) (h.free_memory.1 - h.free_memory.0);
    },
    rw (get_allocator_free start h e),
    refl,
  )

  join_server :
      (start : ℕ) (rs : List Role) (h : ShmHeader Ext Z)
      → join_all (server start ∷ rs) h ≡ join_all rs h
  unfolding join_all join_one init_server
  join_server start rs h = refl

  joined :
      (rs : List Role) (h : ShmHeader Ext Z)
      → outcome (join_all rs h) ≡ (if leb (clients rs + taken h) 1 then none else some panic)
  unfolding join_all clients
  joined [] h = elim (Bool-cases h.allocator_taken) [ inl e ↦ rw e | inr e ↦ rw e ]
  joined (server start ∷ rs) h = ap outcome (join_server start rs h) ∙ joined rs h
  joined (client start ∷ rs) h = elim (Bool-cases h.allocator_taken) [
    | inl e ↦
        let many : leb (suc (clients rs) + 1) 1 ≡ false = ground arith in
        rw (join_taken start h e, e, many)
    | inr e ↦
        let (h', j, t) = join_free start h e in
        let more : suc (clients rs) + 0 ≡ clients rs + 1 = omega arith in
        rw (j, e, more) (joined rs h' ∙ rw t)
  ]

  -- However many threads join a new memory as servers, and wherever it is mapped, none panics if at
  -- most one joins as the client, and the second client panics.
  pub join_all_lem :
      (rs : List Role) (h : ShmHeader Ext Z)
      → h.allocator_taken ≡ false
      → outcome (join_all rs h) ≡ (if leb (clients rs) 1 then none else some panic)
  join_all_lem rs h e =
      let same : clients rs + taken h ≡ clients rs = rw e (omega arith) in
      joined rs h ∙ ap (λ (n : ℕ). if leb n 1 then none else some panic) same
