-- ===== src/Tests/Jobs.antt =====
-- Two tasks that each read from three descriptors in turn, on a kernel that ends every operation in
-- flight at the next wait; and the tests of src/reactor/uring.rs with one read on it.
use trale.Prelude.{ℕ, ◌<◌, ◌≤◌, refl, ◌≡◌, none, some, List, [], ◌∷◌, ret, arith, pos, true, Ends}
use trale.Slab.Vector.{vector_slab}
use trale.RingBuffer.Fifo.{fifo_buffer}
use trale.Uring.{UringApi, Opcode}
use trale.Uring.Eager.{eager, submit_and_wait_serves, one_byte-next_of}
use trale.Task.Defs.{Executor, executor_loop, new}
use trale.Task.Safety.{executor_loop-Ends, IsLoopPanic, Sound, Stopped, turns}
use trale.Task.Wakes.{live}
use trale.Task.Scenarios.{
  Transfers, single_wakeup, dropped_before_react, single_wakeup-dropped_before_react,
}
use trale.Reactor.Io.Value.{pending, ready, okay}
use trale.Task.Jobs.Defs.{Job, finish, await, Fits, World, poll, react, spawn_all, start, job_after}
use trale.Task.Jobs.Following.{job_at}
use trale.Task.Jobs.Finishing.{Clean, executor_loop_finishes}

instance abbrev kernel : UringApi
kernel = eager

abbrev read : ℕ → Job → Job
read fd job = await (Opcode.read (pos fd) (record { ptr = 0; len = 8 }) 0) (λ r. job)

abbrev readers : List Job
readers = read 3 (read 4 (read 5 finish)) ∷ read 6 (read 7 (read 8 finish)) ∷ []

three_reads : (a b c : ℕ) → Fits 3 (read a (read b (read c finish)))
three_reads a b c = (refl, λ r. (refl, λ r. (refl, λ r. tt)))

executor_loop_finishes_example :
    (y : Executor Job) × (w : World) × (executor_loop poll react 9 (spawn_all new readers) start
      ≡ ret (some (y, w)))
    × (live y ≡ 0)
    × (w.panicked ≡ none)
    × ((a : ℕ) → w.polls a ≤ 4)
    × ((a : ℕ) → a < 2 → job_after (job_at readers a) (w.answers a) ≡ some finish)
    × Clean w.system
executor_loop_finishes_example =
    executor_loop_finishes 3 readers 9 submit_and_wait_serves
      (three_reads 3 4 5, (three_reads 6 7 8, tt)) (omega arith) (omega arith) (omega arith)

executor_loop-Ends_example :
    Ends IsLoopPanic Sound (turns 9 (spawn_all new readers) start)
    × Ends IsLoopPanic Stopped (executor_loop poll react 9 (spawn_all new readers) start)
executor_loop-Ends_example =
    executor_loop-Ends 3 9 readers (three_reads 3 4 5, (three_reads 6 7 8, tt))

abbrev one_byte : Opcode
one_byte = Opcode.read (pos 3) (record { ptr = 0; len = 1 }) 0

one_each : Transfers 1
one_each g c came = one_byte-next_of g.posted g c came

single_wakeup-dropped_before_react_example :
    (single_wakeup one_byte 10 ≡ ret (pending, 10 ∷ [], ready (okay (pos 1)), true))
    × (dropped_before_react one_byte 10 ≡ ret (pending, 10 ∷ [], true))
single_wakeup-dropped_before_react_example =
    single_wakeup-dropped_before_react one_byte 10 1 submit_and_wait_serves one_each refl
