-- ===== src/Ipc/Tests.antt =====
-- The operations of examples/evering-ipc on concrete inputs: a memory of 64 bytes that one process maps
-- at 4000 and the other at 9000.
use openoscamp_2025s.Base.{
  ℕ, ◌+◌, ◌≡◌, ◌↔◌, refl, Option, none, some, List, [], ◌∷◌, arith, map, replicate,
}
use openoscamp_2025s.Base.Fault.{done, fault, panic, ub}
use openoscamp_2025s.Base.Future.{ready, pending}
use openoscamp_2025s.Server.{ping, pong}
use openoscamp_2025s.Shm.Alloc.{IsApart, ShmBox, new_slice, alloc_slice_uninit, alloc_raw}
use openoscamp_2025s.Shm.Alloc.Apart.{AreApart, AreInside}
use openoscamp_2025s.Shm.Alloc.Run.{AreBoxes}
use openoscamp_2025s.Shm.Alloc.Bump.{Bump, bump, apart_test, fine_test, taken, place, allocate_at}
use openoscamp_2025s.Shm.Bytes.{
  Shared, write_cells, read_cells, filled_slice, alloc_slice_copied, alloc_slice_filled,
  new_slice_uninit, deref, init_bytes,
}
use openoscamp_2025s.Ipc.{
  PingData, ping_entry, complete_ping, draws, serve_ping, unstarted, guarded, finished, poll_run_on,
  drop_run_on,
}
use openoscamp_2025s.Ipc.Trip.{contents, ping_trip}
use openoscamp_2025s.Op.Flight.{put}
use openoscamp_2025s.Ipc.Guard.{
  GuardAct, poll_at, drop_at, Thread, fresh_thread, IsExclusive, IsRefused, step, run,
  guards_exclude,
}

abbrev memory : Shared Bump
memory = record {
  allocator = record { memory = (4096, 4160); next = 4099; blocks = (4097, 2) ∷ [] };
  cells = write_cells (λ j. none) 97 (some 1 ∷ some 2 ∷ []);
}

abbrev asked : List ℕ
asked = 104 ∷ 105 ∷ []

-- A box that was there before.
abbrev old : ShmBox
old = record { ptr = 4097; layout = record { size = 2; align = 1 } }

abbrev req : ShmBox
req = record { ptr = 4100; layout = record { size = 2; align = 1 } }

abbrev resp : ShmBox
resp = record { ptr = 4103; layout = record { size = 3; align = 1 } }

abbrev after_req : Shared Bump
after_req = record {
  allocator = record { memory = (4096, 4160); next = 4102; blocks = (4100, 2) ∷ (4097, 2) ∷ [] };
  cells = write_cells (memory.cells) 100 (map some asked);
}

abbrev after_resp : Shared Bump
after_resp = record {
  allocator = record {
    memory = (4096, 4160);
    next = 4106;
    blocks = (4103, 3) ∷ (4100, 2) ∷ (4097, 2) ∷ [];
  };
  cells = write_cells (after_req.cells) 103 (replicate 3 none);
}

req_made : alloc_slice_copied bump 4000 memory asked ≡ done (req, after_req)
unfolding alloc_slice_copied filled_slice new_slice alloc_slice_uninit alloc_raw apart_test
    fine_test taken place allocate_at
req_made = refl

resp_made : new_slice_uninit bump 4000 after_req 3 ≡ done (resp, after_resp)
unfolding new_slice_uninit filled_slice new_slice alloc_slice_uninit alloc_raw apart_test fine_test
    taken place allocate_at
resp_made = refl

old-AreBoxes : AreBoxes bump 4096 4160 (record { allocator = memory.allocator; boxes = old ∷ [] })
unfolding AreApart AreInside IsApart
old-AreBoxes = record {
  known = refl;
  home = refl;
  apart = (tt, tt);
  inside = (omega arith, omega arith, omega arith, tt);
}

ping_trip_example :
    (d : PingData) × (cells : ℕ → Option ℕ) × (ping_entry 4000 5 0
        (record { req = req; resp = resp })
      ≡ done (record { id = 0; payload = ping d }))
    × (serve_ping 9000 after_resp.cells (λ i. 97 + i) d ≡ done (asked, cells))
    × (complete_ping (record { req = req; resp = resp }) (pong 6)
        ≡ done (record { token = 6; req = req; resp = resp }))
    × (deref 4000 cells req ≡ done asked)
    × (deref 4000 cells resp ≡ done (draws (λ i. 97 + i) 0 3))
    × (map (contents 4000 cells) (old ∷ []) ≡ map (contents 4000 memory.cells) (old ∷ []))
ping_trip_example =
    ping_trip bump 4000 9000 4096 4160 5 0 3 6 (old ∷ []) asked (λ i. 97 + i) memory after_req
      after_resp req resp old-AreBoxes (omega arith) req_made resp_made

-- A slice that was not written is not read.
uninit_test : deref 4000 after_resp.cells resp ≡ fault ub
unfolding deref read_cells init_bytes write_cells
uninit_test = refl

filled_test :
    alloc_slice_filled bump 4000 memory 7 2
    ≡ done (req, record after_req { cells = write_cells (memory.cells) 100 (some 7 ∷ some 7 ∷ []) })
unfolding alloc_slice_filled filled_slice new_slice alloc_slice_uninit alloc_raw apart_test
    fine_test taken place allocate_at
filled_test = refl

-- The i-th future is one of the runtime `i + 4`.
abbrev owner : ℕ → ℕ
owner i = i + 4

abbrev one_owner : ℕ → ℕ
one_owner rt = 1

-- The first future is dropped while it is pending, and the second one started.
abbrev guard_acts : List (GuardAct ℕ)
guard_acts = poll_at 0 pending ∷ drop_at 0 ∷ poll_at 1 pending ∷ []

abbrev second_runs : Thread
second_runs = record {
  states = put (put (put (λ j. unstarted) 0 guarded) 0 finished) 1 guarded;
  cx = some 5;
}

guard_acts_test : run one_owner owner fresh_thread guard_acts ≡ done second_runs
unfolding run step poll_run_on openoscamp_2025s.Example.enter_runtime drop_run_on
guard_acts_test = refl

guards_exclude_example :
    IsExclusive owner second_runs
    × ((step {A = ℕ} one_owner owner second_runs (poll_at 2 (ready 3)) ≡ fault panic)
        ↔ IsRefused second_runs 2)
guards_exclude_example =
    guards_exclude one_owner owner (λ i e. omega (arith, e)) guard_acts second_runs 2 (ready 3)
      guard_acts_test
