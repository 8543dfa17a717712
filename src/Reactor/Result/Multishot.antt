-- ===== src/Reactor/Result/Multishot.antt =====
-- `MultishotStore` of src/reactor/uring/result.rs: a queue of results for each submitted operation.
pub mod Slots
pub mod Window
use trale.Prelude.{
  ℕ, Bool, true, false, Option, none, some, if◌then◌else◌, Outcome, ret, panic, Panic, ◌>>=◌,
  unwrap, ℤ,
}
use trale.Slab.{SlabApi, Slab, remove}
use trale.RingBuffer.{BufferApi, Buffer}

pub data MultishotResult : Type 0 where
  value : ℤ → MultishotResult
  pending : MultishotResult
  finished : MultishotResult

module _ ⦃B : BufferApi⦄ where
  pub record MultishotResultState : Type 0 where
    pub results : Buffer
    pub dropped : Bool
    pub finished : Bool

abbrev pub MultishotStore : ⦃S : SlabApi⦄ → ⦃B : BufferApi⦄ → Type 0
MultishotStore = Slab MultishotResultState

module _ ⦃S : SlabApi⦄ ⦃B : BufferApi⦄ where
  -- `self.0.remove(idx)`, its value unused
  unfoldable pub discard : MultishotStore → ℕ → Outcome MultishotStore
  discard s idx = do (_, s') ← remove s idx; ret s'

  unfoldable pub push_result : MultishotStore → ℤ → ℕ → Outcome MultishotStore
  push_result s result idx = do
    e ← unwrap Panic.vacant_key (S.get s idx)
    ret (S.put s idx (record e { results = B.push e.results result }))

  -- the match on `dequeue`
  popped : Bool → Option ℤ → MultishotResult
  popped fin (some v) = value v
  popped fin none = if fin then MultishotResult.finished else pending

  unfoldable pub pop_result : MultishotStore → ℕ → Outcome (MultishotResult × MultishotStore)
  unfolding popped
  pop_result s idx = do
    e ← unwrap Panic.vacant_key (S.get s idx)
    let (v, rest) = B.dequeue e.results
    ret (popped e.finished v, S.put s idx (record e { results = rest }))

  unfoldable pub drop_result : MultishotStore → ℕ → Outcome MultishotStore
  unfolding discard
  drop_result s idx = do
    e ← unwrap Panic.vacant_key (S.get s idx)
    if e.finished then discard s idx else ret (S.put s idx (record e { dropped = true }))

  unfoldable pub create_slot : MultishotStore → ℕ × MultishotStore
  create_slot s = S.insert s (record { results = B.new; dropped = false; finished = false })

  unfoldable pub set_finished : MultishotStore → ℕ → Outcome MultishotStore
  unfolding discard
  set_finished s idx = do
    e ← unwrap Panic.vacant_key (S.get s idx)
    if e.dropped then discard s idx else ret (S.put s idx (record e { finished = true }))
