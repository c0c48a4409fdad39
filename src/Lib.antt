-- ===== src/Lib.antt =====
-- A verification library for croutine, a C runtime of stackful coroutines with channels, select and
-- I/O waiting over epoll or kqueue.
--
-- The program. Worker threads take tasks from one run queue (src/task.c, src/worker.c) and switch
-- to them. A task gives the thread back when it ends, yields, or parks on a channel (src/channel.c)
-- or on a descriptor (src/worker.c, src/poller_epoll.c). Every operation on the run queue, the
-- channels and the table of waiting tasks runs under `scheduler_mutex`; a park hands the lock to
-- the scheduler with the context switch. So each stretch under the lock is one function of the
-- model, on explicit state, and a call that may park is two: one up to the switch, and one for what
-- follows when the task is resumed.
--
-- The files.
--   Prelude       natural numbers, bits, lists as C arrays, C `int`, stores by address
--   Ring          arithmetic of rings, shared by the run queue and the channel buffers
--   Task          `struct Task`, `task_cleanup`
--   TaskQueue     the run queue `struct TaskQueue` of src/task.c
--   WaitQueue     the intrusive wait queues of src/channel.c, over a store of links
--   Stack         the stacks of src/task.c
--   Scheduler     parking a task on a channel, resuming it and waking it: src/worker.c
--   Channel       src/channel.c: State (data, commands), Buffer (ring of values), Waiters (wake
--                 helpers), Invariant, Attempt (`try_send_locked`, `try_recv_locked`), Registry
--                 (create, destroy), Api (send, recv, close and their variants), Shuffle (the try
--                 order of a select), Select (`croutine_select`)
--   IoWaits       the table of tasks that wait for descriptors: `struct IoWaitTable` of src/worker.c
--   IoParking     parking on a descriptor, waking its tasks, forgetting it: src/worker.c
--   PollerEpoll   src/poller_epoll.c: the table of generations, and Descriptors, the poller's own
--   Worker        src/worker.c: creating and cleaning up tasks; Lifecycle: initialisation, the spawn
--                 calls, the end of a task, shutdown and release
--   WorkerLoop    `worker_loop_impl` of src/worker.c; System: all workers, tasks and callers as a step
--                 relation; Exclusive and Waiting: what its steps keep of the tasks on workers, and of
--                 the tasks in the table
--   PollerKqueue  src/poller_kqueue.c
--   Syscall       replies of the kernel, for PollerKqueue and IoCalls
--   Runtime       src/runtime.c
--   IoCalls       src/io.c
--   Samples       small concrete states for the tests, which stand in the modules named Tests
-- Functions and fields keep the names of the source.
--
-- Representation. A pointer is a number with `NULL` 0, and a shared object is a value in a store,
-- so aliasing is equality of addresses. The objects whose bytes tasks hand to channels have one
-- address each and do not overlap. `size_t` is 64 bits wide, and its arithmetic is written with the
-- wrap where the source can reach it. An allocation is an argument that says whether it is granted.
-- The kernel, the clock and the memory that `malloc` leaves uninitialised are parameters.
-- `worker_fail`, which aborts, is a result of its own.
--
-- Fuel. The loops that pop waiters, and the loop over the channel registry, take a number of
-- rounds; one round more than there are parked waiters is enough for the popping. The doubling of
-- the epoll table takes as many rounds as the capacity that is needed, since each round adds at
-- least one.
--
-- Cleaning the run queue takes one round more than it has tasks.
--
-- Interleavings. A worker gives up `scheduler_mutex` at a few cuts only: where it decides what to do,
-- waits in the poller, waits for a signal, runs a task, is back from one, and has read whether a
-- shutdown is requested. `WorkerLoop.Pc` names them, and a step of `WorkerLoop.System` takes one
-- worker from a cut to the next, or is a call of a task or of a thread of the caller. The abort of
-- `worker_fail` has no next state.
--
-- Replies. A loop that repeats a system call recurs on the list of the replies that it gets, and has
-- no result if the list ends first. A reply of `kevent` to a wait is a function of the number of
-- events that it is asked for. What the waits inside the I/O calls end with is given, and so is what
-- `F_SETFL` makes of the flags that it is told to set.
--
-- Not modelled: the stub poller, which refuses everything; the machine contexts of src/arch and the
-- sanitizer calls, which have no effect on this state; the bytes that the I/O calls transfer; output
-- of error messages.
pub mod Prelude
pub mod Ring
pub mod Task
pub mod TaskQueue
pub mod WaitQueue
pub mod Stack
pub mod Scheduler
pub mod Channel
pub mod IoWaits
pub mod IoParking
pub mod Syscall
pub mod PollerEpoll
pub mod PollerKqueue
pub mod Worker
pub mod WorkerLoop
pub mod Runtime
pub mod IoCalls
pub mod Samples
