-- ===== src/Bench/Stream.antt =====
-- The streams of examples/ipc-benchmark/src/shmipc.rs and tokio_uring.rs: the loops that write and read
-- a whole buffer, over the calls of the stream, which are parameters.
pub mod Flow
use openoscamp_2025s.Base.{
  ℕ, zero, suc, ◌+◌, ◌-◌, ◌*◌, ◌/◌, ◌%◌, Bool, true, false, List, [], ◌∷◌, ◌++◌, length, drop, leb,
  ◌==◌, if◌then◌else◌,
}
use openoscamp_2025s.Base.Fault.{Exec, done, fault, panic, out_of_fuel, ◌>>=◌, Result, ok, err}

-- `i32::to_be_bytes`; a number of 32 bits.
abbrev pub to_be_bytes : ℕ → List ℕ
to_be_bytes i = i / 256 / 256 / 256 ∷ i / 256 / 256 % 256 ∷ i / 256 % 256 ∷ i % 256 ∷ []

-- `i32::from_be_bytes`, of a slice that has to have four bytes
abbrev pub from_be_bytes : List ℕ → Exec ℕ
from_be_bytes (a ∷ b ∷ c ∷ d ∷ []) = done (((a * 256 + b) * 256 + c) * 256 + d)
from_be_bytes _ = fault panic

module _ {C E : Type 0} where
  -- What follows a call of `write_bytes`, the loop going on with `again`; `&data[n..]` panics if there
  -- are not so many.
  unfoldable pub after_write :
      (C → List ℕ → Exec (Result (Unit {0}) E × C))
      → List ℕ
      → Result ℕ E × C
      → Exec (Result (Unit {0}) E × C)
  after_write again bytes (err e, c) = done (err e, c)
  after_write again bytes (ok n, c) =
      if leb n (length bytes) then again c (drop n bytes) else fault panic

  module _ (write_bytes : C → List ℕ → Result ℕ E × C) where
    unfoldable pub write_all : ℕ → C → List ℕ → Exec (Result (Unit {0}) E × C)
    write_all zero c bytes = fault out_of_fuel
    write_all (suc fuel) c [] = done (ok tt, c)
    write_all (suc fuel) c (b ∷ bytes) =
        after_write (write_all fuel) (b ∷ bytes) (write_bytes c (b ∷ bytes))

    unfoldable pub write_i32 : ℕ → C → ℕ → Exec (Result (Unit {0}) E × C)
    write_i32 fuel c i = write_all fuel c (to_be_bytes i)

  -- `read_i32` of shmipc.rs, of what `read_bytes` has returned for 4 bytes
  unfoldable pub read_i32 : Result (List ℕ) E × C → Exec (Result ℕ E × C)
  read_i32 (err e, c) = done (err e, c)
  read_i32 (ok buf, c) = from_be_bytes buf >>= λ i. done (ok i, c)

  -- What follows a read; `size -= n` panics if that is too much.
  unfoldable pub after_read :
      (C → ℕ → List ℕ → Exec (Result (Unit {0}) E × List ℕ × C))
      → ℕ
      → List ℕ
      → Result (List ℕ) E × C
      → Exec (Result (Unit {0}) E × List ℕ × C)
  after_read again size got (err e, c) = done (err e, got, c)
  after_read again size got (ok bs, c) =
      if leb (length bs) size
      then (if size - length bs == 0
          then done (ok tt, got ++ bs, c)
          else again c (size - length bs) (got ++ bs))
      else fault panic

  -- `read_exact` of tokio_uring.rs: what is in the buffer already is `got`; a read of so many bytes
  -- at most returns those it has read.
  unfoldable pub read_exact :
      (C → ℕ → Result (List ℕ) E × C) → ℕ → C → ℕ → List ℕ → Exec (Result (Unit {0}) E × List ℕ × C)
  read_exact read zero c size got = fault out_of_fuel
  read_exact read (suc fuel) c size got = after_read (read_exact read fuel) size got (read c size)
