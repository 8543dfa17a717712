-- ===== src/Reactor/Result/Store.antt =====
-- `RingResults` of src/reactor/uring/result.rs.
use trale.Prelude.{Bool, ◌&&◌}
use trale.Slab.{SlabApi, is_empty}
use trale.RingBuffer.{BufferApi}
use trale.Reactor.Result.Oneshot.{OneshotStore}
use trale.Reactor.Result.Multishot.{MultishotStore}

module _ ⦃S : SlabApi⦄ ⦃B : BufferApi⦄ where
  pub record RingResults : Type 0 where
    pub oneshot : OneshotStore
    pub multishot : MultishotStore

  unfoldable pub new : RingResults
  new = record { oneshot = S.new; multishot = S.new }

  -- `is_empty` of the two stores and of the whole
  unfoldable pub no_results : RingResults → Bool
  no_results r = is_empty r.oneshot && is_empty r.multishot
