-- ===== src/Tests/Reactor.antt =====
-- A read as in `single_wakeup_read` of src/reactor/uring.rs: submitted, completed with 1 byte, polled.
use trale.Prelude.{
  ℕ, ◌+◌, ◌≤◌, ◌<◌, ◌⊎◌, panic, Panic, ◌≡◌, ◌≢◌, refl, subst, true, false, none, some, List, [],
  ◌∷◌, ret, pos, negsuc, arith, ◌^◌, ◌-◌, if◌then◌else◌, as_usize,
}
use trale.Slab.Vector.{vector_slab}
use trale.RingBuffer.Fifo.{fifo_buffer}
use trale.Reactor.System.Overflow.{first_polls, run-boot-first_polls}
use trale.Uring.{UringApi, entries, Cqe, single_shot, OpClass, Opcode}
use trale.Uring.Scripted.{scripted}
use trale.Reactor.Result.{no_results}
use trale.Reactor.Result.Oneshot.{set_result, get_result, create_slot}
use trale.Reactor.Ring.Defs
use trale.Reactor.Ring.Defs.{next, wait, submit_io, complete, deliver}
use trale.Reactor.Io.Value.{okay, ready, map_poll, map_result, reactor_value_to_result}
use trale.Reactor.Io.Oneshot as OneshotIo
use trale.Reactor.Io.Oneshot.{fresh, submitted, finished}
use trale.Reactor.Io.Multishot as MultishotIo
use trale.Futures.Transfer.{AsyncReader, AsyncWriter, poll_read, poll_write}
use trale.Futures.Files.{FileOpen, Mkdir, poll_open, poll_mkdir}
use trale.Futures.Events.{EventWaiter}
use trale.Futures.Events
use trale.Futures.Actions.{Acts, oneshot_polls-apply}
use trale.Futures.Reads.{next-transfers}
use trale.Reactor.System.Delivery.{next-poll, next-discards}
use trale.Reactor.Result.Oneshot.{pending, dropped, drop_result}
use trale.Reactor.Ring.Defs.{ReactorInner, oneshot}
use trale.Reactor.System.Defs.{
  System, Action, poll_oneshot, drop_oneshot, next_completion, wait_completion, boot, apply, update,
  Safely,
}
use trale.Reactor.System.Invariant.{Inv}
use trale.Reactor.System.Safety.{run, AllFit, run-boot-Safely, run-boot-no_results}

abbrev one_byte : Cqe
one_byte = record { user_data = 0; result = pos 1; more = false }

instance abbrev pub kernel : UringApi
kernel = scripted ((one_byte ∷ []) ∷ [])

abbrev read_actions : List (Action ℕ)
read_actions =
    poll_oneshot 0 single_shot 10
    ∷ wait_completion
    ∷ next_completion
    ∷ poll_oneshot 0 single_shot 10
    ∷ []

read_actions-AllFit : AllFit read_actions
read_actions-AllFit = (refl, (tt, (tt, (refl, tt))))

run-boot-Safely_example : Safely (run boot read_actions) Inv
run-boot-Safely_example = run-boot-Safely read_actions read_actions-AllFit

-- after the read: the operation is over, its slot is free, and the handle has the value
abbrev after_read : System ℕ
after_read = record {
  ring = record {
    uring = record {
      flight = (0, none) ∷ (0, some single_shot) ∷ [];
      used = 0;
      posted = [];
      script = [];
    };
    pending = none ∷ [];
    results = record { oneshot = none ∷ []; multishot = [] };
  };
  oneshots = update (update (λ h. fresh) 0 (submitted 0)) 0 (finished (pos 1));
  multishots = λ h. MultishotIo.IoState.fresh;
}

read_actions_result : run boot read_actions ≡ ret after_read
unfolding run apply boot next wait OneshotIo.submit_or_get_result submit_io complete get_result
    create_slot set_result Defs.new
read_actions_result = refl

run-boot-no_results_example : no_results after_read.ring.results ≡ true
run-boot-no_results_example =
    run-boot-no_results read_actions after_read read_actions-AllFit read_actions_result
      (λ u. ground arith) (λ h. ground arith) (λ h. refl)

-- before the completion is taken
abbrev pub before_next : System ℕ
before_next = record {
  ring = record {
    uring = record {
      flight = (0, some single_shot) ∷ [];
      used = 0;
      posted = one_byte ∷ [];
      script = [];
    };
    pending = some (record { assoc_obj = 10; result_slab_idx = 0; kind = oneshot }) ∷ [];
    results = record { oneshot = some pending ∷ []; multishot = [] };
  };
  oneshots = update (λ h. fresh) 0 (submitted 0);
  multishots = λ h. MultishotIo.IoState.fresh;
}

abbrev first_actions : List (Action ℕ)
first_actions = poll_oneshot 0 single_shot 10 ∷ wait_completion ∷ []

first_actions_result : run boot first_actions ≡ ret before_next
unfolding run apply boot wait OneshotIo.submit_or_get_result submit_io create_slot Defs.new
first_actions_result = refl

pub before_next-Inv : Inv before_next
before_next-Inv =
    subst (λ o. Safely o Inv) first_actions_result (run-boot-Safely first_actions (refl, (tt, tt)))

next-poll_example :
    (t : System ℕ) × (apply before_next next_completion ≡ ret t)
    × ((f : Unit {0} → OpClass × ℕ)
        → (r : ReactorInner ℕ) × (OneshotIo.submit_or_get_result (t.oneshots 0) f t.ring
            ≡ ret (ready (reactor_value_to_result (pos 1)), finished (pos 1), r))
          × (OneshotIo.submit_or_get_result (finished (pos 1)) f r
              ≡ ret (ready (reactor_value_to_result (pos 1)), finished (pos 1), r)))
    × ((k j : ℕ)
        → before_next.oneshots k ≡ submitted j
        → 0 ≢ k
        → vector_slab.get t.ring.results.oneshot j
          ≡ vector_slab.get before_next.ring.results.oneshot j)
next-poll_example = next-poll before_next 0 0 one_byte before_next-Inv refl refl refl

next-transfers_example :
    (t : System ℕ) × (apply before_next next_completion ≡ ret t)
    × ((a : AsyncReader) (waker : ℕ)
        → a.io ≡ t.oneshots 0
        → (r : ReactorInner ℕ) × (poll_read a waker t.ring
            ≡ ret (ready (okay 1), record a { io = finished (pos 1) }, r)))
    × ((a : AsyncWriter) (waker : ℕ)
        → a.io ≡ t.oneshots 0
        → (r : ReactorInner ℕ) × (poll_write a waker t.ring
            ≡ ret (ready (okay 1), record a { io = finished (pos 1) }, r)))
next-transfers_example =
    next-transfers before_next 0 0 one_byte before_next-Inv refl refl refl (omega arith)

oneshot_polls-apply_example :
    ((a : AsyncReader)
      → a.io ≡ submitted 0
      → Acts before_next 0 10
          (Opcode.read a.fd a.buf (if a.seekable then 2 ^ 64 - 1 else 0))
          (map_poll (map_result as_usize))
          (λ io. record a { io = io })
          (poll_read a 10 before_next.ring))
    × ((a : AsyncWriter)
        → a.io ≡ submitted 0
        → Acts before_next 0 10
            (Opcode.write a.fd a.buf (if a.seekable then 2 ^ 64 - 1 else 0))
            (map_poll (map_result as_usize))
            (λ io. record a { io = io })
            (poll_write a 10 before_next.ring))
    × ((a : FileOpen)
        → a.io ≡ submitted 0
        → Acts before_next 0 10
            (Opcode.open_at (negsuc 99) a.path a.flags 511)
            (map_poll (map_result (λ fd. record { inner = fd })))
            (λ io. record a { io = io })
            (poll_open a 10 before_next.ring))
    × ((a : Mkdir)
        → a.io ≡ submitted 0
        → Acts before_next 0 10
            (Opcode.mkdir_at (negsuc 99) a.path 511)
            (map_poll (map_result (λ _. tt)))
            (λ io. record a { io = io })
            (poll_mkdir a 10 before_next.ring))
    × ((a : EventWaiter)
        → a.io ≡ submitted 0
        → Acts before_next 0 10
            (Opcode.read a.inner a.wait_buf 0)
            (map_poll (map_result (λ _. tt)))
            (λ io. record a { io = io })
            (Events.poll a 10 before_next.ring))
oneshot_polls-apply_example = oneshot_polls-apply before_next 0 10

-- the handle is dropped before the completion is taken
abbrev dropped_before_next : System ℕ
dropped_before_next = record before_next {
  ring = record (before_next.ring) {
    results = record { oneshot = some dropped ∷ []; multishot = [] };
  };
  oneshots = update (update (λ h. fresh) 0 (submitted 0)) 0 fresh;
}

abbrev drop_actions : List (Action ℕ)
drop_actions = poll_oneshot 0 single_shot 10 ∷ wait_completion ∷ drop_oneshot 0 ∷ []

drop_actions_result : run boot drop_actions ≡ ret dropped_before_next
unfolding run apply boot wait OneshotIo.submit_or_get_result OneshotIo.drop drop_result submit_io
    create_slot Defs.new
drop_actions_result = refl

dropped_before_next-Inv : Inv dropped_before_next
dropped_before_next-Inv =
    subst (λ o. Safely o Inv) drop_actions_result
      (run-boot-Safely drop_actions (refl, (tt, (tt, tt))))

next-discards_example :
    (t : System ℕ) × (apply dropped_before_next next_completion ≡ ret t)
    × (vector_slab.get t.ring.results.oneshot 0 ≡ none)
    × (vector_slab.get t.ring.pending 0 ≡ none)
    × ((j : ℕ)
        → j ≢ 0
        → vector_slab.get t.ring.results.oneshot j
          ≡ vector_slab.get dropped_before_next.ring.results.oneshot j)
    × (t.ring.results.multishot ≡ [])
next-discards_example =
    next-discards dropped_before_next 0 one_byte dropped_before_next-Inv refl refl refl

abbrev too_many : List (Action ℕ)
too_many = first_polls single_shot 10 0 1025

run-boot-first_polls_example :
    ((1025 ≤ entries)
      × (t : System ℕ) × (run boot too_many ≡ ret t)
      × (kernel.room t.ring.uring + 1025 ≡ entries))
    ⊎ ((entries < 1025) × (run boot too_many ≡ panic Panic.queue_full))
run-boot-first_polls_example = run-boot-first_polls single_shot 10 1025
