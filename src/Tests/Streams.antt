-- ===== src/Tests/Streams.antt =====
-- A listener's stream: two connections arrive, and then its operation ends with an error.
use trale.Prelude.{
  Bool, tail, length, ◌≤◌, ◌≢◌, ℕ, ◌≡◌, refl, subst, true, false, none, some, arith, List, [], ◌∷◌,
  ret, panic, Panic, ℤ, pos, negsuc,
}
use trale.Reactor.Result.Multishot.Window.{push_all, push_all-window, window}
use trale.Slab.Vector.{vector_slab}
use trale.RingBuffer.Fifo.{fifo_buffer}
use trale.Uring.{UringApi, Cqe, multi_shot}
use trale.Uring.Scripted.{scripted}
use trale.Reactor.Result.Multishot.{
  MultishotResultState, MultishotStore, create_slot, push_result, set_finished,
}
use trale.Reactor.Ring.Defs
use trale.Reactor.Ring.Defs.{ReactorInner, PendingIo, multi, next, wait, submit_io, complete}
use trale.Reactor.Io.Value.{okay, ready, reactor_value_to_result}
use trale.Reactor.Io.Oneshot as OneshotIo
use trale.Reactor.Io.Multishot.{fresh, submitted, submit_or_get_result}
use trale.Futures.Tcp.Defs.{TcpListener, poll_next}
use trale.Futures.Accepts.{accepted as accepted_first, Accepts, HasSmallError, poll_next-Accepts}
use trale.Reactor.System.Defs.{
  System, Action, poll_multishot, drop_multishot, next_completion, wait_completion, boot, apply,
  update, Safely,
}
use trale.Reactor.System.Invariant.{Inv}
use trale.Reactor.System.Safety.{run, run-boot-Safely, run-boot-pending}
use trale.Reactor.System.Streams.{
  Holds, polls, polls-Holds, next-Holds, next-drop_ended, next-leaks,
}

abbrev accepted : ℤ → Cqe
accepted fd = record { user_data = 0; result = fd; more = true }

abbrev ended : Cqe
ended = record { user_data = 0; result = negsuc 21; more = false }

instance abbrev kernel : UringApi
kernel = scripted ((accepted (pos 7) ∷ accepted (pos 8) ∷ ended ∷ []) ∷ [])

abbrev actions : List (Action ℕ)
actions = poll_multishot 0 multi_shot 10 ∷ wait_completion ∷ next_completion ∷ next_completion ∷ []

-- two connections wait in the slot, and the end of the stream in the completion queue
abbrev two_waiting : System ℕ
two_waiting = record {
  ring = record {
    uring = record {
      flight = (0, some multi_shot) ∷ [];
      used = 0;
      posted = ended ∷ [];
      script = [];
    };
    pending = some (record { assoc_obj = 10; result_slab_idx = 0; kind = multi }) ∷ [];
    results = record {
      oneshot = [];
      multishot =
          some (record { results = pos 7 ∷ pos 8 ∷ []; dropped = false; finished = false }) ∷ [];
    };
  };
  oneshots = λ h. OneshotIo.IoState.fresh;
  multishots = update (λ h. fresh) 0 (submitted 0 0);
}

actions_result : run boot actions ≡ ret two_waiting
unfolding run apply boot next wait submit_or_get_result submit_io complete push_result create_slot
    Defs.new
actions_result = refl

two_waiting-Inv : Inv two_waiting
two_waiting-Inv =
    subst (λ o. Safely o Inv) actions_result (run-boot-Safely actions (refl, (tt, (tt, (tt, tt)))))

two_waiting-Holds : Holds two_waiting.ring 0 (pos 7 ∷ pos 8 ∷ []) false
two_waiting-Holds = (_, refl, refl, refl, refl)

polls-Holds_example :
    (q : ReactorInner ℕ) × (polls 2 (submitted 0 0) (λ _. (multi_shot, 10)) two_waiting.ring
      ≡ ret (
        ready (some (reactor_value_to_result (pos 7)))
            ∷ ready (some (reactor_value_to_result (pos 8)))
            ∷ [],
        submitted 0 0,
        q,
      ))
    × Holds q 0 [] false
polls-Holds_example =
    polls-Holds (pos 7 ∷ pos 8 ∷ []) two_waiting.ring 0 0 false (λ _. (multi_shot, 10))
      two_waiting-Holds

next-Holds_example :
    (t : System ℕ) × (apply two_waiting next_completion ≡ ret t)
    × Holds t.ring 0 (pos 7 ∷ pos 8 ∷ negsuc 21 ∷ []) true
    × (t.multishots 0 ≡ submitted 0 0)
next-Holds_example =
    next-Holds two_waiting 0 0 0 ended two_waiting-Inv refl refl refl (pos 7 ∷ pos 8 ∷ [])
      two_waiting-Holds

next-drop_ended_example :
    (t : System ℕ) × (apply two_waiting next_completion ≡ ret t)
    × (apply t (drop_multishot 0) ≡ panic Panic.cancel_failed)
next-drop_ended_example =
    next-drop_ended two_waiting 0 0 0 ended two_waiting-Inv refl refl refl refl refl

next-leaks_example :
    (t : System ℕ) × (apply two_waiting next_completion ≡ ret t)
    × (kernel.inflight t.ring.uring 0 ≡ none)
    × ((io : PendingIo ℕ) × (vector_slab.get t.ring.pending 0 ≡ some io))
next-leaks_example = next-leaks two_waiting 0 0 0 ended two_waiting-Inv refl refl refl refl

-- the stream has ended: its record is still there
abbrev after_end : System ℕ
after_end = record {
  ring = record {
    uring = record {
      flight = (0, none) ∷ (0, some multi_shot) ∷ [];
      used = 0;
      posted = [];
      script = [];
    };
    pending = some (record { assoc_obj = 10; result_slab_idx = 0; kind = multi }) ∷ [];
    results = record {
      oneshot = [];
      multishot =
          some
            (record { results = pos 7 ∷ pos 8 ∷ negsuc 21 ∷ []; dropped = false; finished = true })
          ∷ [];
    };
  };
  oneshots = λ h. OneshotIo.IoState.fresh;
  multishots = update (λ h. fresh) 0 (submitted 0 0);
}

abbrev all_actions : List (Action ℕ)
all_actions =
    poll_multishot 0 multi_shot 10
    ∷ wait_completion
    ∷ next_completion
    ∷ next_completion
    ∷ next_completion
    ∷ []

all_actions_result : run boot all_actions ≡ ret after_end
unfolding run apply boot next wait submit_or_get_result submit_io complete push_result create_slot
    set_finished Defs.new
all_actions_result = refl

run-boot-pending_example : multi ≡ multi
run-boot-pending_example =
    run-boot-pending all_actions after_end (refl, (tt, (tt, (tt, (tt, tt))))) all_actions_result
      (λ u. ground arith) 0 (record { assoc_obj = 10; result_slab_idx = 0; kind = multi }) refl

abbrev listener : TcpListener
listener = record { inner = pos 3; io = submitted 0 0 }

poll_next-Accepts_example :
    ((s : System ℕ) (h : ℕ)
      → listener.io ≡ fresh
      → s.multishots h ≡ fresh
      → Accepts listener 10 s h)
    × ((r : ReactorInner ℕ) (i u : ℕ) (xs : List ℤ) (fin : Bool)
        → listener.io ≡ submitted i u
        → HasSmallError xs
        → Holds r i xs fin
        → (q : ReactorInner ℕ) × (poll_next listener 10 r
            ≡ ret (accepted_first xs fin, listener, q))
          × Holds q i (tail xs) fin)
poll_next-Accepts_example = poll_next-Accepts listener 10

-- the listener's poll yields the older connection
first_connection :
    (q : ReactorInner ℕ) × (poll_next listener 10 two_waiting.ring
      ≡ ret (ready (some (okay (record { inner = pos 7 }))), listener, q))
    × Holds q 0 (pos 8 ∷ []) false
first_connection =
    (poll_next-Accepts listener 10).1 two_waiting.ring 0 0 (pos 7 ∷ pos 8 ∷ []) false refl tt
      two_waiting-Holds

abbrev one_waits : MultishotResultState
one_waits = record { results = pos 5 ∷ []; dropped = false; finished = false }

push_all-window_example :
    (t : MultishotStore) × (e : MultishotResultState) × (push_all
        (some one_waits ∷ [])
        (pos 6 ∷ pos 7 ∷ [])
        0
      ≡ ret t)
    × (vector_slab.get t 0 ≡ some e)
    × (e.results ≡ window (pos 5 ∷ pos 6 ∷ pos 7 ∷ []))
    × (length e.results ≤ 1024)
    × ((j : ℕ) → 0 ≢ j → vector_slab.get t j ≡ vector_slab.get (some one_waits ∷ []) j)
push_all-window_example =
    push_all-window (some one_waits ∷ []) (pos 6 ∷ pos 7 ∷ []) 0 one_waits refl (omega arith)
