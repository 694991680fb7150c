-- ===== src/Bench.antt =====
-- examples/ipc-benchmark/src/evering.rs and bench.rs: the server of the benchmark, which keeps the
-- answer that the ring had no room for, and the buffers that it checks and sends.
pub mod Order
pub mod Buffers
pub mod Stream
mod Tests
use openoscamp_2025s.Base.{
  ℕ, zero, suc, ◌+◌, ◌*◌, ◌^◌, min, Bool, true, false, Option, none, some, List, [], ◌∷◌, length,
  get_elem?, replicate, ltb, ◌==◌, if◌then◌else◌,
}
use openoscamp_2025s.Base.Fault.{
  Exec, done, fault, panic, out_of_fuel, ◌>>=◌, ◌>>◌, assert, expect, ok, err,
}
use openoscamp_2025s.Uring.{RawUring, uring_b, send, recv}
use openoscamp_2025s.Runtime.{Rqe}
use openoscamp_2025s.Server.{Sqe, SqeData, exit, ping, RqeData, exited, pong}

abbrev pub bufsizes : List ℕ
bufsizes =
    4
    ∷ 64
    ∷ 512
    ∷ 1024
    ∷ 4096
    ∷ 16 * 2 ^ 10
    ∷ 32 * 2 ^ 10
    ∷ 64 * 2 ^ 10
    ∷ 256 * 2 ^ 10
    ∷ 512 * 2 ^ 10
    ∷ 2 ^ 20
    ∷ 4 * 2 ^ 20
    ∷ []

abbrev pub concurrency : ℕ
concurrency = 200

unfoldable pub shmsize : ℕ → ℕ
shmsize bufsize =
    if ltb bufsize (2 ^ 20)
    then 256 * 2 ^ 20
    else (if ltb bufsize (4 * 2 ^ 20) then 2 ^ 30 else 2 * 2 ^ 30)

unfoldable pub make_bufdata : ℕ → ℕ → List ℕ
make_bufdata bufsize expected = replicate bufsize expected

-- The loop of `check_bufdata`, from its i-th draw on.
unfoldable pub check_draws : (ℕ → ℕ) → List ℕ → ℕ → ℕ → ℕ → Exec (Unit {0})
check_draws choice resp expected i zero = done tt
check_draws choice resp expected i (suc n) = do
  b ← expect (get_elem? resp (choice i))
  assert (b == expected)
  check_draws choice resp expected (i + 1) n

unfoldable pub check_bufdata : (ℕ → ℕ) → ℕ → List ℕ → ℕ → Exec (Unit {0})
check_bufdata choice bufsize resp expected =
    assert (length resp == bufsize) >> check_draws choice resp expected 0 (min 32 bufsize)

-- The end of the rings, the answer that is `pending`, and what the requests are handled in.
pub record BenchServer (D V Ext W : Type 0) : Type 0 where
  pub rq : RawUring (Sqe D) (Rqe (RqeData V)) Ext
  pub pending : Option (Rqe (RqeData V))
  pub work : W

module _ {D V Ext W : Type 0} (handle : D → W → Exec W) (token : V) where
  -- The body of the inner loop, which goes on with `again`; `true` is a break out of both loops.
  unfoldable pub bench_request :
      (RawUring (Sqe D) (Rqe (RqeData V)) Ext → W → Exec (Bool × BenchServer D V Ext W))
      → ℕ
      → SqeData D
      → RawUring (Sqe D) (Rqe (RqeData V)) Ext
      → W
      → Exec (Bool × BenchServer D V Ext W)
  bench_request again id exit m w = send uring_b m (record { id = id; payload = exited }) >>= λ r.
      elim r.0 [
        | ok v ↦ done (true, record { rq = r.1; pending = none; work = w })
        | err e ↦ fault panic
      ]
  bench_request again id (ping d) m w = handle d w >>= λ w'.
      send uring_b m (record { id = id; payload = pong token }) >>= λ r. elim r.0 [
        | ok v ↦ again r.1 w'
        | err p ↦ done (false, record { rq = r.1; pending = some p; work = w' })
      ]

  -- The inner loop. The client stands still while it runs: what it sends meanwhile comes after it.
  unfoldable pub bench_loop :
      ℕ → RawUring (Sqe D) (Rqe (RqeData V)) Ext → W → Exec (Bool × BenchServer D V Ext W)
  bench_loop zero m w = fault out_of_fuel
  bench_loop (suc fuel) m w = recv uring_b m >>= λ r. elim r.0 [
    | none ↦ done (false, record { rq = r.1; pending = none; work = w })
    | some sqe ↦ bench_request (bench_loop fuel) sqe.id sqe.payload r.1 w
  ]

  -- A round of the outer loop; it is the last if `true` is returned.
  unfoldable pub bench_round : ℕ → BenchServer D V Ext W → Exec (Bool × BenchServer D V Ext W)
  bench_round fuel s = elim s.pending [
    | none ↦ bench_loop fuel s.rq s.work
    | some p ↦ send uring_b s.rq p >>= λ r. elim r.0 [
      | ok v ↦ bench_loop fuel r.1 s.work
      | err p' ↦ done (false, record { rq = r.1; pending = some p'; work = s.work })
    ]
  ]
