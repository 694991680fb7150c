-- ===== src/Bench/Buffers.antt =====
-- The buffers of examples/ipc-benchmark/src/bench.rs: what passes the check.
use openoscamp_2025s.Base.{
  ℕ, zero, suc, ◌+◌, ◌<◌, ◌≡◌, ◌≢◌, refl, min, some, length, length-replicate, get_elem?, replicate,
  ==_of_eq, ==_of_ne, arith,
}
use openoscamp_2025s.Base.Fault.{done, fault, panic}
use openoscamp_2025s.Bench.{make_bufdata, check_draws, check_bufdata}

get_elem?-replicate : (n i b : ℕ) → i < n → get_elem? (replicate n b) i ≡ some b
get_elem?-replicate zero i b lt = absurd (omega arith)
get_elem?-replicate (suc n) zero b lt = refl
get_elem?-replicate (suc n) (suc i) b lt = get_elem?-replicate n i b (omega arith)

draws_pass :
    (choice : ℕ → ℕ) (size b i n : ℕ)
    → ((j : ℕ) → choice j < size)
    → check_draws choice (replicate size b) b i n ≡ done tt
unfolding check_draws
draws_pass choice size b i zero inside = refl
draws_pass choice size b i (suc n) inside =
    rw (get_elem?-replicate size (choice i) b (inside i), ==_of_eq b b refl)
      (draws_pass choice size b (i + 1) n inside)

draws_fail :
    (choice : ℕ → ℕ) (size b b' i n : ℕ)
    → ((j : ℕ) → choice j < size)
    → b ≢ b'
    → 0 < n
    → check_draws choice (replicate size b) b' i n ≡ fault panic
unfolding check_draws
draws_fail choice size b b' i zero inside ne pos = absurd (omega arith)
draws_fail choice size b b' i (suc n) inside ne pos =
    rw (get_elem?-replicate size (choice i) b (inside i), ==_of_ne b b' ne) refl

-- A buffer that `make_bufdata` makes, if it is not empty, passes the check of its size and byte,
-- whichever bytes of it are drawn, and fails the check of any other byte.
pub check_bufdata_lem :
    (choice : ℕ → ℕ) (size b b' : ℕ)
    → ((j : ℕ) → choice j < size)
    → b ≢ b'
    → 0 < size
    → (check_bufdata choice size (make_bufdata size b) b ≡ done tt)
      × (check_bufdata choice size (make_bufdata size b) b' ≡ fault panic)
unfolding check_bufdata make_bufdata
check_bufdata_lem choice size b b' inside ne pos = (
  rw (==_of_eq (length (replicate size b)) size (length-replicate size b))
      (draws_pass choice size b 0 (min 32 size) inside),
  rw (==_of_eq (length (replicate size b)) size (length-replicate size b))
      (draws_fail choice size b b' 0 (min 32 size) inside ne (omega arith)),
)
