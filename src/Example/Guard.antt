-- ===== src/Example/Guard.antt =====
-- The thread-local handle of examples/evering-threaded/src/runtime.rs.
use openoscamp_2025s.Base.{ℕ, ◌≡◌, refl, ◌≢◌, Option, none, ==_of_ne}
use openoscamp_2025s.Base.Fault.{Exec, done, fault, panic, ◌>>=◌}
use openoscamp_2025s.Example.{enter_runtime, get_runtime, block_on_runtime}

module _ (strong : ℕ → ℕ) where
  -- `block_on` within `block_on`, of any runtimes, panics, whatever the inner future is.
  pub nested_panics :
      {A : Type 0} (rt rt' : ℕ) (body : Option ℕ → Exec (A × Option ℕ))
      → strong rt ≢ 0
      → block_on_runtime strong rt (block_on_runtime strong rt' body) none ≡ fault panic
  unfolding block_on_runtime enter_runtime
  nested_panics rt rt' body alive = rw (==_of_ne (strong rt) 0 alive)

  -- One after the other is fine, and inside the handle gives the runtime that was entered last; after
  -- it there is none.
  pub sequential_lem :
      (rt rt' : ℕ)
      → strong rt' ≢ 0
      → (block_on_runtime strong rt (λ cx. done (tt, cx)) none >>= (λ r.
            block_on_runtime strong rt' (λ cx. get_runtime strong cx >>= λ g. done (g, cx)) r.1)
          ≡ done (rt', none))
        × (get_runtime strong none ≡ fault panic)
  unfolding block_on_runtime enter_runtime get_runtime
  sequential_lem rt rt' alive = (rw (==_of_ne (strong rt') 0 alive), refl)
