-- ===== src/Reactor/Result/Oneshot.antt =====
-- `OneshotStore` of src/reactor/uring/result.rs: one result for each submitted operation.
pub mod Slots
use trale.Prelude.{
  ℕ, Bool, true, false, Option, none, some, if◌then◌else◌, Outcome, ret, panic, Panic, ◌>>=◌,
  unwrap, ℤ,
}
use trale.Slab.{SlabApi, Slab, remove}

pub data ResultState : Type 0 where
  pending : ResultState
  set_to : ℤ → ResultState
  dropped : ResultState

abbrev pub OneshotStore : ⦃S : SlabApi⦄ → Type 0
OneshotStore = Slab ResultState

-- `matches!(r_entry, ResultState::Dropped)`
abbrev is_dropped : ResultState → Bool
is_dropped dropped = true
is_dropped _ = false

-- `matches!(r_entry, ResultState::Set(_))`
abbrev is_set : ResultState → Bool
is_set (set_to r) = true
is_set _ = false

module _ ⦃S : SlabApi⦄ where
  -- `self.0.remove(idx)`, its value unused
  unfoldable pub discard : OneshotStore → ℕ → Outcome OneshotStore
  discard s idx = do (_, s') ← remove s idx; ret s'

  unfoldable pub set_result : OneshotStore → ℤ → ℕ → Outcome OneshotStore
  unfolding discard
  set_result s result idx = do
    r_entry ← unwrap Panic.vacant_key (S.get s idx)
    if is_dropped r_entry then discard s idx else ret (S.put s idx (set_to result))

  take_result : OneshotStore → ℕ → ResultState → Outcome (Option ℤ × OneshotStore)
  unfolding discard
  take_result s idx pending = ret (none, s)
  take_result s idx (set_to result) = do s' ← discard s idx; ret (some result, s')
  take_result s idx dropped = panic Panic.dropped_result

  unfoldable pub get_result : OneshotStore → ℕ → Outcome (Option ℤ × OneshotStore)
  unfolding take_result
  get_result s idx = do r ← unwrap Panic.vacant_key (S.get s idx); take_result s idx r

  unfoldable pub drop_result : OneshotStore → ℕ → Outcome OneshotStore
  unfolding discard
  drop_result s idx = do
    r_entry ← unwrap Panic.vacant_key (S.get s idx)
    if is_set r_entry then discard s idx else ret (S.put s idx dropped)

  unfoldable pub create_slot : OneshotStore → ℕ × OneshotStore
  create_slot s = S.insert s pending
