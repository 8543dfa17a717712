-- ===== src/Lib.antt =====
-- A model of trale, an async executor for Linux on io_uring, and what makes it correct.
--
-- A future submits an operation through a handle (src/reactor/uring/io/), the reactor
-- (src/reactor/uring.rs) keeps the operation's waker in the slab `pending` and its result in a slab
-- of results (src/reactor/uring/result.rs), the kernel posts completions, and the executor
-- (src/task.rs) wakes the tasks whose operations have completed and polls them.
--
--   Prelude      what all files share: tests on numbers, `Outcome` (a result or a panic), lemmas
--   Slab         the crate `slab` as an interface (Slab.Api) and a vector that implements it
--   RingBuffer   the crate `ringbuffer` as an interface and a bounded list that implements it
--   Uring        the crate `io_uring` with the kernel behind it as an interface; a kernel that
--                runs a script of completions (Scripted), and one that ends every operation at the
--                next wait (Eager)
--   Reactor.Result   `OneshotStore`, `MultishotStore`, `RingResults` of reactor/uring/result.rs
--   Reactor.Ring     `ReactorInner`, `IoCompletionIter`, `react` of reactor/uring.rs
--   Reactor.Io       the handles of reactor/uring/io/{mod,oneshot,multishot}.rs with their `Drop`
--   Reactor.Lane     an abstract account of slots, operations and handles, which both kinds of
--                    operation refine
--   Reactor.System   the reactor with all its handles, as a sequence of polls, drops, waits and
--                    completions
--   Task         `TaskId`, `Task`, `Executor`, `executor_loop` of task.rs over any reactor;
--                `Reactor::react` of reactor/mod.rs (Task.React); `TaskJoiner` with its channel
--                (Task.Join); `spawn` with its async block, `run` and `block_on` (Task.Blocks)
--   Task.Jobs    the executor over the reactor with tasks that await operations one after the other, as
--                the examples in examples/ do: what each poll and each completion does to all of it
--   Task.Scenarios   the tests of reactor/uring.rs with one operation, on any kernel
--   Libc         system calls on sockets, events and timers, and byte order, as an interface, and a
--                table of descriptors that implements it
--   Futures.SockAddr, Transfer, Files, Timer, Tcp, Udp, Events, Locks   the futures of sock_addr.rs,
--                read.rs and write.rs, fs.rs, timer.rs, tcp.rs, udp.rs, event.rs, mutex.rs in
--                src/futures/; an `async` function is the type of its states between two polls
--   Futures.Exclusion   the attempts to lock one mutex and their guards, as a step relation: the polls
--                of the attempts, the kernel's completions of their reads, drops, and other code
--   Futures.Reads, Datagrams, Expiry, Tokens, Actions, Accepts, Tcp.Sockets, Tcp.Connects   what
--                is shown of them
--   Examples.WebServer   examples/web_server.rs: texts and paths (Text), the header (Response), the
--                request (Request), the answer (Server), over what the awaits return (Api)
--   Examples.Echo    the echo tasks of examples/tcp_serv.rs and examples/tcp.rs
--   Tests        runs at concrete inputs
--
-- A function of the source is a function of the same name. One that changes an object takes the
-- object and returns it changed; a panic (`unwrap`, `expect`, `assert!`, `panic!`, indexing) is the
-- `panic` outcome, tagged with its cause. The crates are instance arguments: their interfaces state
-- what their documentation says, and each has an implementation to show that the laws can hold.
-- The kernel answers as it likes within the interface: it may post a completion of any operation in
-- flight, refuse a wait or a cancellation, and end a multishot operation at any time.
--
-- `executor_loop` runs on fuel, one unit for each turn: more units than the tasks have work are
-- enough; in Task.Jobs a task has one more than it awaits operations. The loop over the
-- completions runs on as much fuel as completions are queued and one more. The web server's loops
-- run on fuel: one unit for each read of a request and one more, and one for each buffer of the
-- file and one more; the echo loop has one for each byte and one more. Everything else is
-- structural recursion. Keys and task ids are unbounded numbers; results are integers.
--
-- Not modelled: the memory that operations point into; wakers that are called from other threads;
-- the thread-local storage that holds the executor and the reactor (they are passed as arguments);
-- a future's own destructor, whose effect counts as a part of the poll; futures and the world they
-- act on (parameters of Task); a panic of a poll in the executor over any reactor (the tasks of
-- Task.Jobs record theirs); the web server's accepting loop; the rest of the examples, which print;
-- logging and command lines. In Futures.Exclusion the kernel and the reactor are a part of the step
-- relation: the event that an attempt awaits is ready only once the kernel has completed the
-- attempt's read. All tasks of one `Hub` in Task.Blocks return the same type. A task of Task.Jobs
-- stands for any async block that awaits the oneshot futures of src/futures/ in sequence; what it
-- does between two awaits is left out.
-- The submission queue's size, which `Reactor::new` passes as 1024, is part of the interface of
-- `io_uring`.
pub mod Prelude
pub mod Slab
pub mod RingBuffer
pub mod Uring
pub mod Libc
pub mod Futures
pub mod Reactor
pub mod Task
pub mod Examples
mod Tests
