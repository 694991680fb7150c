-- ===== src/Ipc.antt =====
-- The operations of examples/evering-ipc/src/op.rs, whose requests and responses carry boxes, what
-- the server of examples/evering-ipc/src/main.rs does with a ping, and `run_on` of
-- examples/evering-ipc/src/runtime.rs. The rest of that runtime is that of Example.
pub mod Trip
pub mod Guard
mod Tests
use openoscamp_2025s.Base.{
  ℕ, zero, suc, ◌+◌, ◌-◌, Bool, true, false, Option, none, some, List, [], ◌∷◌, map,
}
use openoscamp_2025s.Base.Fault.{Exec, done, fault, panic, ◌>>=◌}
use openoscamp_2025s.Base.Future.{Poll, ready, pending}
use openoscamp_2025s.Slab.{Slab}
use openoscamp_2025s.Driver.{Cancellation, recycle, RawOp}
use openoscamp_2025s.Op.{Completable, completable}
use openoscamp_2025s.Server.{Sqe, ping, RqeData, exited, pong}
use openoscamp_2025s.Example.{enter_runtime, block_on_runtime, into_sender, drop_runtime}
use openoscamp_2025s.Shm.Alloc.{ShmBox}
use openoscamp_2025s.Shm.Bytes.{ShmToken, as_shm, as_ptr, deref, assume_init, write_cells}

-- What `SqeData::Ping` carries.
pub record PingData : Type 0 where
  pub value : ℕ
  pub req : ShmToken
  pub resp : ShmToken

pub record Ping : Type 0 where
  pub req : ShmBox
  pub resp : ShmBox

pub record Pong : Type 0 where
  pub token : ℕ
  pub req : ShmBox
  pub resp : ShmBox

-- The closure of `ping`, in a process whose mapping begins at start.
unfoldable pub ping_entry : ℕ → ℕ → ℕ → Ping → Exec (Sqe PingData)
ping_entry start value id p = do
  req ← as_shm start p.req
  resp ← as_shm start p.resp
  done (record { id = id; payload = ping (record { value = value; req = req; resp = resp }) })

-- `impl Completable for Ping`
unfoldable pub complete_ping : Ping → RqeData ℕ → Exec Pong
complete_ping p exited = fault panic
complete_ping p (pong token) =
    done (record { token = token; req = p.req; resp = assume_init p.resp })

abbrev pub cancel_ping : Ping → Cancellation (ShmBox × ShmBox)
cancel_ping p = recycle (p.req, p.resp)

abbrev pub ping_op : {Ext : Type 0} → Completable Ping (RqeData ℕ) (ShmBox × ShmBox) Ext (Exec Pong)
ping_op = completable complete_ping cancel_ping

-- The letters that are drawn for a response, from the i-th draw on.
unfoldable pub draws : (ℕ → ℕ) → ℕ → ℕ → List ℕ
draws draw i zero = []
draws draw i (suc n) = draw i ∷ draws draw (i + 1) n

-- The server reads the request and writes the response; the bytes that it has read, and those of the
-- memory after it. The line of the log, which expects the bytes to be UTF-8, is left out.
unfoldable pub serve_ping : ℕ → (ℕ → Option ℕ) → (ℕ → ℕ) → PingData → Exec (List ℕ × (ℕ → Option ℕ))
serve_ping start cells draw d = do
  read ← deref start cells (as_ptr start d.req)
  let resp = as_ptr start d.resp
  done (read, write_cells cells (resp.ptr - start) (map some (draws draw 0 (resp.layout.size))))

-- `enter` of examples/evering-ipc/src/runtime.rs, `block_on`, `into_uring`, whose `unreachable!` is
-- met if there are other references, and `Drop for Runtime`
abbrev pub enter_ipc : (ℕ → ℕ) → Option ℕ → ℕ → Exec (Option ℕ)
enter_ipc strong cx rt = enter_runtime strong cx rt

abbrev pub block_on_ipc :
    {A : Type 0} → (ℕ → ℕ) → ℕ → (Option ℕ → Exec (A × Option ℕ)) → Option ℕ → Exec (A × Option ℕ)
block_on_ipc strong rt body cx = block_on_runtime strong rt body cx

module _ (strong : ℕ → ℕ) (release : ℕ → ℕ → Exec (Unit {0})) (cx : Option ℕ) {P R Ext : Type 0}
    (slab : Slab (RawOp P R Ext)) where
  open slab use {S}

  abbrev pub into_uring : {U : Type 0} → ℕ → U → List ℕ → List ℕ → S → Exec U
  into_uring count u queued waiting s = into_sender strong release cx slab count u queued waiting s

  abbrev pub drop_ipc : ℕ → List ℕ → List ℕ → S → Exec (Unit {0})
  drop_ipc count queued waiting s = drop_runtime strong release cx slab count queued waiting s

-- The future of `run_on`: its guard is made by the first poll, and dropped when it is ready.
pub data RunOnState : Type 0 where
  unstarted guarded finished : RunOnState

module _ (strong : ℕ → ℕ) {A : Type 0} where
  -- A poll of `run_on` of the runtime rt, whose future does fut to `CX`.
  unfoldable pub poll_run_on :
      ℕ
      → (Option ℕ → Exec (Poll A × Option ℕ))
      → RunOnState
      → Option ℕ
      → Exec (Poll A × RunOnState × Option ℕ)
  poll_run_on rt fut finished cx = fault panic
  poll_run_on rt fut guarded cx = fut cx >>= λ r. elim r.0 [
    | ready a ↦ done (ready a, finished, none)
    | pending ↦ done (pending, guarded, r.1)
  ]
  poll_run_on rt fut unstarted cx = enter_ipc strong cx rt >>= λ cx'. fut cx' >>= λ r. elim r.0 [
    | ready a ↦ done (ready a, finished, none)
    | pending ↦ done (pending, guarded, r.1)
  ]

-- The drop of such a future drops its guard, if it has one.
unfoldable pub drop_run_on : RunOnState → Option ℕ → Option ℕ
drop_run_on guarded cx = none
drop_run_on unstarted cx = cx
drop_run_on finished cx = cx
