-- ===== src/Uring/Life/Tests.antt =====
-- A connection of evering/src/uring.rs on concrete inputs.
use openoscamp_2025s.Base.{Bool, ℕ, ◌^◌, ◌≡◌, refl, none, List, [], ◌∷◌, arith}
use openoscamp_2025s.Base.Bits.{is_power_of_two}
use openoscamp_2025s.Base.Fault.{done, fault, panic}
use openoscamp_2025s.Ring.{new_offsets, enqueue, dequeue, drop_in_place, drop_loop, inc}
use openoscamp_2025s.Ring.Holds.{Holds}
use openoscamp_2025s.Uring.{
  RawUring, queue_a, queue_b, new_ext, set_size_a, build, build_header, send, recv, dispose,
  drop_end,
}
use openoscamp_2025s.Uring.Build.{build_fresh, build_too_large}
use openoscamp_2025s.Uring.Life.{World, Act, send_a, send_b, recv_b, drop_a, drop_b, act, run}
use openoscamp_2025s.Uring.Life.Account.{history, IsAccounted, history-IsAccounted}

-- Two values of four fit a queue of two slots less one; the second end drops what is left.
abbrev calls : List (Act ℕ ℕ)
calls = send_a 1 ∷ send_a 2 ∷ send_b 3 ∷ drop_a ∷ recv_b ∷ send_b 4 ∷ drop_b ∷ recv_b ∷ []

history_test :
    history {Ext = ℕ} 1 2 0 (omega arith) (omega arith) calls
    ≡ done (record {
      region = none;
      has_a = Bool.false;
      has_b = Bool.false;
      sent_a = 1 ∷ [];
      got_a = 1 ∷ [];
      lost_a = [];
      sent_b = 3 ∷ 4 ∷ [];
      got_b = [];
      lost_b = 3 ∷ 4 ∷ [];
    })
unfolding history build build_header new_offsets is_power_of_two run act send recv enqueue dequeue
    inc drop_end dispose drop_in_place drop_loop
history_test = refl

history-IsAccounted_example :
    (w : World ℕ ℕ ℕ) × (history {Ext = ℕ} 1 2 0 (omega arith) (omega arith) calls ≡ done w)
    × IsAccounted 1 2 w
history-IsAccounted_example = history-IsAccounted {Ext = ℕ} 1 2 0 (omega arith) (omega arith) calls

build_fresh_example :
    (m : RawUring ℕ ℕ ℕ) × (build (new_ext 7) ≡ done m)
    × Holds 5 (queue_a m) []
    × Holds 5 (queue_b m) []
    × (m.header.rc ≡ 2)
build_fresh_example = build_fresh 5 5 7 (omega arith) (omega arith)

build_too_large_example :
    (set_size_a {Ext = ℕ} (new_ext 7) (2 ^ 33)
      ≡ done (record { size_a = 2 ^ 33; size_b = 32; ext = 7 }))
    × (build {Ext = ℕ} {A = ℕ} {B = ℕ} (record { size_a = 2 ^ 33; size_b = 32; ext = 7 })
        ≡ fault panic)
build_too_large_example = build_too_large {Ext = ℕ} (new_ext 7) 33 (omega arith) (omega arith)
