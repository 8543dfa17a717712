-- ===== src/Reactor/Io/Oneshot.antt =====
-- src/reactor/uring/io/oneshot.rs: the handle of an operation with one completion.
use trale.Prelude.{ℕ, Option, none, some, Outcome, ret, ◌>>=◌, ℤ}
use trale.Slab.{SlabApi}
use trale.RingBuffer.{BufferApi}
use trale.Uring.{UringApi, Entry}
use trale.Reactor.Result.Oneshot.{get_result, drop_result}
use trale.Reactor.Ring.Defs.{ReactorInner, IoKind, submit_io}
use trale.Reactor.Io.Value.{IoResult, Poll, pending, ready, reactor_value_to_result}

pub data IoState : Type 0 where
  fresh : IoState
  submitted : ℕ → IoState
  finished : ℤ → IoState

-- `From<&IoState> for Poll`
unfoldable pub poll_of : IoState → Poll (IoResult ℤ)
poll_of fresh = pending
poll_of (submitted slot) = pending
poll_of (finished result) = ready (reactor_value_to_result result)

-- `OneshotUringIo::new`; the handle's ring is passed along with its state
unfoldable pub new : IoState
new = fresh

-- the state after the `Submitted` case
abbrev pub settled : ℕ → Option ℤ → IoState
settled slot none = submitted slot
settled slot (some res) = finished res

module _ ⦃S : SlabApi⦄ ⦃B : BufferApi⦄ ⦃U : UringApi⦄ {T : Type 0} where
  -- the match on `self.state`; the closure `f` is called in the first case only
  unfoldable pub advance :
      IoState → (Unit {0} → Entry × T) → ReactorInner T → Outcome (IoState × ReactorInner T)
  advance fresh f r = do
    let (entry, obj) = f tt
    ((_, result_slot), r') ← submit_io r entry obj IoKind.oneshot
    ret (submitted result_slot, r')
  advance (submitted slot) f r = do
    (res, s) ← get_result r.results.oneshot slot
    ret (settled slot res, record r { results = record (r.results) { oneshot = s } })
  advance (finished result) f r = ret (finished result, r)

  unfoldable pub submit_or_get_result :
      IoState
      → (Unit {0} → Entry × T)
      → ReactorInner T
      → Outcome (Poll (IoResult ℤ) × IoState × ReactorInner T)
  unfolding advance poll_of
  submit_or_get_result state f r = do
    (state', r') ← advance state f r
    ret (poll_of state', state', r')

  -- `Drop::drop`
  unfoldable pub drop : IoState → ReactorInner T → Outcome (ReactorInner T)
  drop (submitted slot) r = do
    s ← drop_result r.results.oneshot slot
    ret (record r { results = record (r.results) { oneshot = s } })
  drop fresh r = ret r
  drop (finished result) r = ret r
