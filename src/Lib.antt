-- ===== src/Lib.antt =====
-- Verification of openoscamp-2025s: an asynchronous runtime over a shared-memory ring ("evering").
--
-- The program. evering/src/uring.rs is a connection of two ends over two bounded rings in shared
-- memory; evering/src/driver.rs and evering/src/op.rs manage the life of an operation that was
-- submitted through it; local-executor is a single-threaded executor of futures; the examples put
-- them together: examples/evering-utils/src/runtime.rs is the runtime that submits operations and
-- completes them from the responses, examples/evering-ipc lays the rings out in a shared memory.
--
-- The files. Base and its children are shared: tests and lists over the native numbers (Base/Tests,
-- Base/Lists), results and faults (Base/Fault), masks of low bits and powers of two (Base/Bits).
-- Fifo is the specification of a queue. Ring is `Offsets`, `Queue` and `Drain` of uring.rs, each
-- operation a function from the queue to its result and the new queue; Ring/Holds says when a queue
-- holds a list, Ring/Refine and Ring/Bulk prove the operations against Fifo. Ring/Threads has one
-- sender and one receiver an access to shared memory at a time; Ring/Threads/Inv, Sending and
-- Receiving are the invariant, Ring/Threads/Safety what follows. Uring is `Header`, `RawUring`, the
-- ends, `UringEither` and `Builder`; Uring/Build is about its sizes, Uring/Life runs the calls of the
-- two ends (Drop, Keep and Account are its proofs). The modules called Tests run the code on concrete
-- inputs and apply the theorems to them.
--
-- Slab is the interface of the external `slab` crate, with its documented behaviour, and
-- Slab/Sample a slab that meets it, for the tests. Driver is `DriverInner` of driver.rs over such
-- a slab; Driver/Steps has what each of its operations does to one entry, Driver/Room what it does
-- to the number of entries. Op is `Op` of op.rs; Op/Trip follows one operation, Op/Flight a client
-- with any number of them: Op/Flight/Step has what each of its calls keeps, Op/Flight/Safe what
-- follows. Executor is local-executor: the tasks, the queue and `block_on`; what a future does to
-- the executor while it is polled is a script of calls, and the code of the futures a parameter
-- that makes scripts. Executor/Round is about one round, Executor/Join about awaiting a task,
-- Executor/Await about when `block_on` returns, Executor/Behaves, Safe and Safe/Run about panics.
-- Runtime is the runtime of evering-utils over Uring, Driver and Op; Runtime/Receive is the loop
-- over the responses, Runtime/Submit the two waits of a submission. Shm is shm.rs and the handles
-- of shm/boxed.rs of examples/evering-ipc, with Shm/Align, Shm/Layout and Shm/Share; Shm/Alloc is
-- its allocator and `ShmBox` over an interface of the external `rlsf::Tlsf`, Shm/Alloc/Apart is
-- about blocks, Shm/Alloc/Run about the boxes of a client, and Shm/Alloc/Bump is an allocator for
-- the tests. Server is the server of examples/evering-threaded/src/main.rs, with Server/Reply and
-- Server/Round; Server/Shuffle is that of examples/evering-ipc/src/main.rs. Example is the runtime
-- and the operations of examples/evering-threaded: Example/Guard the thread-local handle,
-- Example/Close the end of a runtime, Example/Kinds both operations over one runtime, with the
-- kinds of their requests and responses. System is client and server together, a call at a time:
-- System/Sound says when they are as they should be, System/Client, Entered, Submit, Retry,
-- Receive and Serve have what each kind of call keeps, System/Typed what keeps the labels that
-- tell which request, response and operation belong together, System/Count, Room and Fit count
-- ids, System/Safe and System/Drain have what follows for runs. Shm/Bytes is what the boxes hold,
-- Shm/Bytes/Cells and Pair about reads and writes. Ipc is the operations of examples/evering-ipc
-- and its `run_on`: Ipc/Trip follows a ping and its bytes, Ipc/Guard the futures of `run_on` of a
-- thread. Bench is the server of examples/ipc-benchmark/src/evering.rs and the buffers of
-- bench.rs, with Bench/Order and Bench/Buffers; Bench/Stream is the loops over a stream of
-- shmipc.rs and tokio_uring.rs, Bench/Stream/Flow what they move.
--
-- How the code is read. A panic, undefined behaviour of `unsafe` code and a loop of the model that is
-- out of fuel are the three faults of Base/Fault, so that a theorem that a call is `done` excludes all
-- three. `debug_assert!` is checked, as in a debug build. A `u32` is a number with its wrap-around
-- written out. The slots of a buffer are options, `none` until written. What is dropped is returned as
-- a list. The loop over a `Drain` and the loop of `Queue::drop_in_place` take fuel: the size of the
-- ring, which is more than it holds. Threads interleave at accesses to shared memory, sequentially:
-- weaker orders than the code's `Acquire` and `Release` pairs are not modelled.
--
-- Fuel. The loop over the responses of one poll of `RunOn` takes as many rounds as the ring has slots.
-- `block_on` has no bound in the code, since it waits for the main future; it takes a number of rounds,
-- and what is stated of it holds for every number, or for all from a bound that the future gives.
--
-- The loop of the benchmark's server takes as many rounds as the ring of the requests has slots, and
-- `write_all` and `read_exact` take a number of rounds that the theorems bound by the bytes to move.
--
-- Not modelled: what the benchmarks (examples/ipc-benchmark) do over sockets, which is calls of other
-- libraries, and their timing; the client halves and the command lines of the `main` programs; the code
-- that runs when a future is dropped, but for the guard of `run_on` and the operations that a runtime
-- drops when it ends; a call of `block_on` by a task of the same executor; the pinning and boxing of
-- values; allocation failure, a layout that is too large for the machine included.
pub mod Base
pub mod Fifo
pub mod Ring
pub mod Uring
pub mod Slab
pub mod Driver
pub mod Op
pub mod Executor
pub mod Runtime
pub mod Shm
pub mod Server
pub mod System
pub mod Example
pub mod Ipc
pub mod Bench
