-- ===== src/Tests/Locks.antt =====
-- One attempt to lock a mutex: polled, completed, and then polled again or dropped.
use trale.Prelude.{
  ◌+◌, if◌then◌else◌, ◌==◌, ℕ, ◌≡◌, refl, true, false, [], ◌∷◌, some, none, ret, pos,
}
use trale.Slab.Vector.{vector_slab}
use trale.RingBuffer.Fifo.{fifo_buffer}
use trale.Uring.{UringApi, single_shot}
use trale.Uring.Scripted.{scripted}
use trale.Libc.Table.{no_web, Table, table_libc}
use trale.Reactor.Result.Oneshot
use trale.Reactor.Result.Oneshot.{get_result, create_slot}
use trale.Reactor.Ring.Defs
use trale.Reactor.Ring.Defs.{ReactorInner, oneshot, submit_io}
use trale.Reactor.Io.Value.{okay, pending, ready, reactor_value_to_result}
use trale.Reactor.Io.Oneshot as OneshotIo
use trale.Futures.Events
use trale.Futures.Events.{Event, EventWaiter}
use trale.Futures.Locks.{new, Mutex, Lock, waiting, returned, poll_lock}
use trale.Futures.Exclusion.Defs.{Shared, poll, complete, abandon, Reach, here, next, start}
use trale.Futures.Exclusion.Safety.{mutual_exclusion, stranded-no_guard}

instance abbrev kernel : UringApi
kernel = scripted []

abbrev mutex : Mutex ℕ
mutex = record { evt = record { inner = pos 3 }; obj = 7 }

-- no descriptor is open yet
abbrev before : Table
before = record { facts = []; top = 3; busy_port = 80; events = []; counts = λ e. 0; web = no_web }

-- the event of the new mutex counts 1
abbrev unlocked : Table
unlocked = record {
  facts = (pos 3, true) ∷ [];
  top = 4;
  busy_port = 80;
  events = (pos 3, some 3) ∷ [];
  counts = λ e. if e == 3 then (if e == 3 then 0 else 0) + 1 else (if e == 3 then 0 else 0);
  web = no_web;
}

-- with the clone of the first attempt
abbrev cloned : Table
cloned = record unlocked {
  facts = (pos 4, true) ∷ (pos 3, true) ∷ [];
  top = 5;
  events = (pos 4, some 3) ∷ (pos 3, some 3) ∷ [];
}

abbrev taken : Table
taken = record cloned { counts = λ e. 0; web = no_web }

abbrev closed : Table
closed = record taken {
  facts = (pos 4, false) ∷ (pos 4, true) ∷ (pos 3, true) ∷ [];
  events = (pos 4, none) ∷ (pos 4, some 3) ∷ (pos 3, some 3) ∷ [];
}

abbrev clone : Event
clone = record { inner = pos 4 }

abbrev waiter : EventWaiter
waiter = record {
  inner = pos 4;
  io = OneshotIo.IoState.submitted 0;
  wait_buf = record { ptr = 4096; len = 8 };
}

abbrev submitted_ring : ReactorInner ℕ
submitted_ring = record {
  uring = record { flight = (0, some single_shot) ∷ []; used = 1; posted = []; script = [] };
  pending = some (record { assoc_obj = 10; result_slab_idx = 0; kind = oneshot }) ∷ [];
  results = record { oneshot = some Oneshot.ResultState.pending ∷ []; multishot = [] };
}

abbrev completed_ring : ReactorInner ℕ
completed_ring = record submitted_ring {
  pending = none ∷ [];
  results = record { oneshot = some (Oneshot.ResultState.set_to (pos 8)) ∷ []; multishot = [] };
}

abbrev over_ring : ReactorInner ℕ
over_ring = record completed_ring { results = record { oneshot = none ∷ []; multishot = [] } }

made_mutex : new 7 before ≡ (okay mutex, unlocked)
unfolding new Events.new Events.notify_one
made_mutex = refl

first_poll :
    poll_lock mutex 4096 Lock.unstarted 10 Defs.new unlocked
    ≡ ret (pending, waiting clone waiter, submitted_ring, cloned)
unfolding poll_lock OneshotIo.submit_or_get_result submit_io create_slot Defs.new
first_poll = refl

second_poll :
    poll_lock mutex 4096 (waiting clone waiter) 10 completed_ring taken
    ≡ ret (ready (record { mtx = mutex.evt }), returned, over_ring, closed)
unfolding poll_lock OneshotIo.submit_or_get_result get_result reactor_value_to_result
second_poll = refl

abbrev Locking : Shared → Type 0
Locking s = Reach ℕ mutex 3 (start unlocked) s

abbrev Reached : Type 0
Reached = (s : Shared) × Locking s

abbrev after_complete : Reached
after_complete = (
  _,
  next
      (next here
        (poll (start unlocked) 0 4096 10 Defs.new submitted_ring pending _ _ first_poll tt))
      (complete _ 0 taken refl (record { one_less = refl; same_events = λ fd. refl })),
)

abbrev after_lock : Reached
after_lock = (
  _,
  next after_complete.1 (
      poll after_complete.0 0 4096 10 completed_ring over_ring (ready (record { mtx = mutex.evt }))
        _ _ second_poll (λ x e h. refl)),
)

abbrev after_abandon : Reached
after_abandon = (_, next after_complete.1 (abandon after_complete.0 0 clone waiter refl))

mutual_exclusion_example : ◌≡◌ {A = ℕ} 0 0
mutual_exclusion_example =
    mutual_exclusion mutex 3 7 before unlocked made_mutex refl after_lock.1 0 0 refl refl

stranded-no_guard_example : after_abandon.0.guarded 5 ≡ false
stranded-no_guard_example =
    stranded-no_guard mutex 3 7 before unlocked made_mutex refl after_abandon.1 0 (refl, refl) here
      5
