-- ===== src/Reactor/Ring/Defs.antt =====
-- `ReactorInner`: submission, and the handling of one completion.
use trale.Prelude.{ℕ, Option, none, some, if◌then◌else◌, Outcome, ret, Panic, ◌>>=◌, unwrap}
use trale.Slab.{SlabApi, Slab, remove}
use trale.RingBuffer.{BufferApi}
use trale.Uring.{UringApi, Ring, Entry, Cqe}
use trale.Reactor.Result.Oneshot
use trale.Reactor.Result.Multishot
use trale.Reactor.Result.{RingResults}
use trale.Reactor.Result

pub data IoKind : Type 0 where
  oneshot multi : IoKind

pub record PendingIo (T : Type 0) : Type 0 where
  pub assoc_obj : T
  pub result_slab_idx : ℕ
  pub kind : IoKind

module _ ⦃S : SlabApi⦄ ⦃B : BufferApi⦄ ⦃U : UringApi⦄ where
  pub record ReactorInner (T : Type 0) : Type 0 where
    pub uring : Ring
    pub pending : Slab (PendingIo T)
    pub results : RingResults

  unfoldable pub new : {T : Type 0} → ReactorInner T
  unfolding Result.new
  new = record { uring = U.new; pending = S.new; results = Result.new }

  -- the match on `kind` at the head of `submit_io`
  unfoldable pub create_slot : IoKind → RingResults → ℕ × RingResults
  create_slot oneshot r =
      let (idx, s) = Oneshot.create_slot r.oneshot in (idx, record r { oneshot = s })
  create_slot multi r =
      let (idx, s) = Multishot.create_slot r.multishot in (idx, record r { multishot = s })

  unfoldable pub submit_io :
      {T : Type 0} → ReactorInner T → Entry → T → IoKind → Outcome ((ℕ × ℕ) × ReactorInner T)
  unfolding create_slot
  submit_io r entry obj kind = do
    let (result_slab_idx, results) = create_slot kind r.results
    let (slot, pending) =
        S.insert r.pending
          (record { assoc_obj = obj; result_slab_idx = result_slab_idx; kind = kind })
    uring ← unwrap Panic.queue_full (U.push r.uring entry slot)
    ret ((slot, result_slab_idx), record { uring = uring; pending = pending; results = results })

  -- `push_result`, then `set_finished` when no more completions follow
  unfoldable pub deliver_multi : RingResults → Cqe → ℕ → Outcome RingResults
  deliver_multi results entry idx = do
    s ← Multishot.push_result results.multishot entry.result idx
    s' ← (if entry.more then ret s else Multishot.set_finished s idx)
    ret (record results { multishot = s' })

  -- the match on `pending_io.kind`
  unfoldable pub deliver :
      {T : Type 0} → IoKind → ReactorInner T → Cqe → ℕ → Outcome (ReactorInner T)
  unfolding deliver_multi
  deliver oneshot r entry idx = do
    s ← Oneshot.set_result r.results.oneshot entry.result idx
    (_, pending) ← remove r.pending entry.user_data
    ret (record r { pending = pending; results = record (r.results) { oneshot = s } })
  deliver multi r entry idx = do
    results ← deliver_multi r.results entry idx
    ret (record r { results = results })

  -- one completion
  unfoldable pub complete : {T : Type 0} → ReactorInner T → Cqe → Outcome (T × ReactorInner T)
  unfolding deliver
  complete r entry = do
    io ← unwrap Panic.vacant_key (S.get r.pending entry.user_data)
    r' ← deliver io.kind r entry io.result_slab_idx
    ret (io.assoc_obj, r')

  -- the early return `?` on an empty completion queue
  next_of : {T : Type 0} → ReactorInner T → Option Cqe → Outcome (Option T × ReactorInner T)
  unfolding complete
  next_of r none = ret (none, r)
  next_of r (some entry) = do (obj, r') ← complete r entry; ret (some obj, r')

  -- `IoCompletionIter::next`
  unfoldable pub next : {T : Type 0} → ReactorInner T → Outcome (Option T × ReactorInner T)
  unfolding next_of
  next r = let (entry, uring) = U.next r.uring in next_of (record r { uring = uring }) entry

  -- `ReactorUring::react`: wait for a completion; the iterator then reads the queue.
  unfoldable pub wait : {T : Type 0} → ReactorInner T → Outcome (ReactorInner T)
  wait r = do
    uring ← unwrap Panic.submit_failed (U.submit_and_wait r.uring)
    ret (record r { uring = uring })
