-- ===== src/Tests/Executor.antt =====
-- An executor with one task, which reads a byte, over the reactor and a kernel from a script.
use trale.Prelude.{◌≡◌, refl, Option, none, some, [], ◌∷◌, Outcome, ret, panic, pos, arith}
use trale.Slab.Vector.{vector_slab}
use trale.RingBuffer.Fifo.{fifo_buffer}
use trale.Uring.{single_shot}
use trale.Tests.Reactor.{kernel, before_next, before_next-Inv}
use trale.Reactor.Ring.Defs.{ReactorInner, next, wait, submit_io, complete, deliver}
use trale.Reactor.Ring.Defs
use trale.Reactor.Result.Oneshot.{set_result, get_result, create_slot}
use trale.Reactor.Io.Oneshot.{IoState, submitted, finished}
use trale.Reactor.Io.Oneshot as OneshotIo
use trale.Reactor.System.Defs.{System, boot, apply, poll_oneshot, Safely}
use trale.Task.Defs.{
  TaskId, Executor, Polled, wake, wake_all, executor_loop, turn, fill, poll_next, run_task, act_all,
  park,
}
use trale.Task.React.{react_all, wakers}
use trale.Task.Reacting.{Drained, wakers-Safely}

abbrev over : Unit {0} → IoState → Option (Unit {0})
over f (finished v) = none
over f _ = some f

-- the read is polled; a panic ends the task
abbrev read_polled :
    Unit {0} → System TaskId → Outcome (System TaskId) → Polled (Unit {0}) (System TaskId)
read_polled f s (ret t) = record { effects = []; world = t; rest = over f (t.oneshots 0) }
read_polled f s (panic p) = record { effects = []; world = s; rest = none }

abbrev read_task : Unit {0} → TaskId → System TaskId → Polled (Unit {0}) (System TaskId)
read_task f a s = read_polled f s (apply s (poll_oneshot 0 single_shot a))

abbrev one_task : Executor (Unit {0})
one_task = record {
  waiting = [];
  run_q = (record { id = 0; future = tt }) ∷ [];
  ids = λ a. 0;
  next_id = 1;
}

-- the loop ends within two turns, with the value of the read
two_turns :
    (y : Executor (Unit {0})) × (t : System TaskId) × (executor_loop read_task react_all 2 one_task
        boot
      ≡ ret (some (y, t)))
    × (t.oneshots 0 ≡ finished (pos 1))
unfolding executor_loop turn fill poll_next run_task act_all park react_all wakers wake_all wake
    apply boot next wait OneshotIo.submit_or_get_result submit_io complete get_result create_slot
    set_result Defs.new
two_turns = (_, _, refl, refl)

wakers-Safely_example : Safely (wakers 2 before_next.ring) (Drained before_next)
wakers-Safely_example = wakers-Safely 2 before_next before_next-Inv (omega arith)
