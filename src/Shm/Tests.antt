-- ===== src/Shm/Tests.antt =====
-- The shared memory of examples/evering-ipc on concrete inputs: rings of 32 elements of 24 bytes in a
-- memory of 4096 bytes. The state of the allocator is the number of bytes that it was given.
use openoscamp_2025s.Base.{ℕ, ◌+◌, ◌≤◌, ◌<◌, ◌≡◌, refl, false, some, [], ◌∷◌, arith}
use openoscamp_2025s.Base.Bits.{is_power_of_two}
use openoscamp_2025s.Base.Fault.{done, fault, panic, Result, ok}
use openoscamp_2025s.Uring.{Header}
use openoscamp_2025s.Shm.{
  MemLayout, ShmHeader, checked_add, align_up, create_offsets, create, open_shm, shm_mmap,
  get_allocator, get_shm, get_ptr,
}
use openoscamp_2025s.Shm.Align.{IsRoundedUp, align_up_lem}
use openoscamp_2025s.Shm.Layout.{IsLaidOut, create_lem}
use openoscamp_2025s.Shm.Share.{
  client, server, clients, join_all, outcome, sent_pointer_lem, join_all_lem,
}

abbrev header : Header ℕ
header = record {
  off_a = record { head = 0; tail = 0; ring_mask = 31 };
  off_b = record { head = 0; tail = 0; ring_mask = 31 };
  rc = 2;
  ext = 0;
}

abbrev elem : MemLayout
elem = record { size = 24; align = 8 }

abbrev append : ℕ → ℕ → ℕ → ℕ
append z start len = z + len

abbrev grows : ℕ → Result (Unit {0}) ℕ
grows n = ok tt

abbrev maps : ℕ → Result ℕ ℕ
maps n = ok 20480

abbrev made : ShmHeader ℕ ℕ
made = record {
  header = header;
  buf_a = 304;
  buf_b = 1072;
  allocator_taken = false;
  allocator = 0;
  free_memory = (1840, 4096);
}

align_up_test :
    (align_up 300 8 ≡ done 304) × (align_up 304 8 ≡ done 304) × (align_up 5 6 ≡ fault panic)
unfolding align_up checked_add is_power_of_two
align_up_test = (refl, refl, refl)

create_test : create grows maps 0 300 elem elem 4096 header ≡ done (ok (20480, made))
unfolding create create_offsets align_up checked_add is_power_of_two shm_mmap
create_test = refl

open_test : open_shm {E = ℕ} (ok 4096) maps 8192 ≡ fault panic
unfolding open_shm
open_test = refl

align_up_lem_test : (r : ℕ) × (align_up 300 8 ≡ done r) × IsRoundedUp 8 300 r
align_up_lem_test = align_up_lem 3 300 (omega arith) (omega arith)

create_lem_example :
    (h : ShmHeader ℕ ℕ) × (create grows maps 0 300 elem elem 4096 header ≡ done (ok (20480, h)))
    × (h.header ≡ header)
    × (h.allocator_taken ≡ false)
    × (h.free_memory.1 ≡ 4096)
    × IsLaidOut 300 elem elem 32 32 4096 h.buf_a h.buf_b h.free_memory.0
create_lem_example =
    create_lem grows maps 0 300 elem elem 4096 header 3 3 20480 refl refl (omega arith)
      (omega arith) (omega arith) (omega arith) refl refl

create_small_test : create {Z = ℕ} grows maps 0 300 elem elem 1840 header ≡ fault panic
unfolding create create_offsets align_up checked_add is_power_of_two shm_mmap
create_small_test = refl

laid_out : IsLaidOut 300 elem elem 32 32 4096 304 1072 1840
laid_out = record {
  a_after_header = omega arith;
  a_aligned = refl;
  b_after_a = omega arith;
  b_aligned = refl;
  free_after_b = omega arith;
  inside = omega arith;
}

sent_pointer_lem_example :
    (h' : ShmHeader ℕ ℕ) × (shm : ℕ) × (get_allocator append 20480 made ≡ done ((22320, 2256), h'))
    × (get_shm 20480 22400 ≡ done shm)
    × (20480 + shm ≡ 22400)
    × (get_ptr 65536 shm < 69632)
    × (67376 ≤ get_ptr 65536 shm)
    × (66608 ≤ 66608)
sent_pointer_lem_example =
    sent_pointer_lem append 300 elem elem 4096 20480 65536 22400 made (omega arith) refl refl
      laid_out (omega arith) (omega arith)

join_all_lem_example :
    outcome (join_all append (server 4096 ∷ client 20480 ∷ server 8192 ∷ client 65536 ∷ []) made)
    ≡ some panic
unfolding clients
join_all_lem_example =
    join_all_lem append (server 4096 ∷ client 20480 ∷ server 8192 ∷ client 65536 ∷ []) made refl
