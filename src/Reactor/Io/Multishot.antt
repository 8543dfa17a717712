-- ===== src/Reactor/Io/Multishot.antt =====
-- src/reactor/uring/io/multishot.rs: the handle of an operation with any number of completions.
use trale.Prelude.{ℕ, Option, none, some, Outcome, ret, Panic, ◌>>=◌, unwrap, ℤ}
use trale.Slab.{SlabApi}
use trale.RingBuffer.{BufferApi}
use trale.Uring.{UringApi, Entry}
use trale.Reactor.Result.Multishot.{MultishotResult, value, pop_result, drop_result}
use trale.Reactor.Ring.Defs.{ReactorInner, IoKind, submit_io}
use trale.Reactor.Io.Value.{IoResult, Poll, pending, ready, reactor_value_to_result}

pub data IoState : Type 0 where
  fresh : IoState
  submitted : ℕ → ℕ → IoState

-- `MultishotUringIo::new`
unfoldable pub new : IoState
new = fresh

-- the match on `pop_result`
unfoldable pub poll_of : MultishotResult → Poll (Option (IoResult ℤ))
poll_of (value v) = ready (some (reactor_value_to_result v))
poll_of MultishotResult.pending = pending
poll_of MultishotResult.finished = ready none

module _ ⦃S : SlabApi⦄ ⦃B : BufferApi⦄ ⦃U : UringApi⦄ {T : Type 0} where
  unfoldable pub submit_or_get_result :
      IoState
      → (Unit {0} → Entry × T)
      → ReactorInner T
      → Outcome (Poll (Option (IoResult ℤ)) × IoState × ReactorInner T)
  unfolding poll_of
  submit_or_get_result fresh f r = do
    let (entry, obj) = f tt
    ((user_data, result_slot), r') ← submit_io r entry obj IoKind.multi
    ret (pending, submitted result_slot user_data, r')
  submit_or_get_result (submitted slot user_data) f r = do
    (res, s) ← pop_result r.results.multishot slot
    ret (
      poll_of res,
      submitted slot user_data,
      record r { results = record (r.results) { multishot = s } },
    )

  -- `Drop::drop`
  unfoldable pub drop : IoState → ReactorInner T → Outcome (ReactorInner T)
  drop fresh r = ret r
  drop (submitted slot user_data) r = do
    uring ← unwrap Panic.cancel_failed (U.sync_cancel r.uring user_data)
    s ← drop_result r.results.multishot slot
    ret (record r { uring = uring; results = record (r.results) { multishot = s } })
