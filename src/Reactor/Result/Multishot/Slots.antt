-- ===== src/Reactor/Result/Multishot/Slots.antt =====
-- What each operation of `MultishotStore` does to its slots, as a map from keys to states.
use trale.Prelude.{
  ℕ, ◌≡◌, inl, inr, Bool, true, false, Bool-cases, Option, none, some, if◌then◌else◌, ret, ℤ, arith,
}
use trale.Slab.{SlabApi, Changes}
use trale.RingBuffer.{BufferApi}
use trale.Reactor.Result.Multishot.{
  MultishotResult, value, pending, MultishotResultState, MultishotStore, push_result, pop_result,
  drop_result, create_slot, set_finished,
}

-- What a poll answers: the oldest value, or whether more can come.
abbrev pub answer : Bool → Option ℤ → MultishotResult
answer fin (some v) = value v
answer true none = MultishotResult.finished
answer false none = pending

module _ ⦃S : SlabApi⦄ ⦃B : BufferApi⦄ where
  -- What is left of a slot after the last completion, and after its stream is dropped.
  abbrev pub completed : MultishotResultState → Option MultishotResultState
  completed e = if e.dropped then none else some (record e { finished = true })

  abbrev pub released : MultishotResultState → Option MultishotResultState
  released e = if e.finished then none else some (record e { dropped = true })

  abbrev pub fresh_slot : MultishotResultState
  fresh_slot = record { results = B.new; dropped = false; finished = false }

  pub push_result_lem :
      (s : MultishotStore) (r : ℤ) (i : ℕ) (e : MultishotResultState)
      → S.get s i ≡ some e
      → (s' : MultishotStore) × (push_result s r i ≡ ret s')
        × Changes s i (some (record e { results = B.push e.results r })) s'
  unfolding push_result
  push_result_lem s r i e h = (_, ground arith, λ j. S.get-put s i e _ j h)

  pub pop_result_lem :
      (s : MultishotStore) (i : ℕ) (e : MultishotResultState)
      → S.get s i ≡ some e
      → (s' : MultishotStore) × (pop_result s i
          ≡ ret (answer e.finished (B.dequeue e.results).0, s'))
        × Changes s i (some (record e { results = (B.dequeue e.results).1 })) s'
  unfolding pop_result
  pop_result_lem s i e h = (
    S.put s i (record e { results = (B.dequeue e.results).1 }),
    ground arith,
    λ j. S.get-put s i e _ j h,
  )

  pub set_finished_lem :
      (s : MultishotStore) (i : ℕ) (e : MultishotResultState)
      → S.get s i ≡ some e
      → (s' : MultishotStore) × (set_finished s i ≡ ret s') × Changes s i (completed e) s'
  unfolding set_finished
  set_finished_lem s i e h = elim (Bool-cases e.dropped) [
    | inl d ↦ (
      (S.try_remove s i).1,
      ground (arith, S.try_remove_value s i),
      λ j. rw d (S.get-try_remove s i j),
    )
    | inr d ↦
        (S.put s i (record e { finished = true }), ground arith, λ j. rw d (S.get-put s i e _ j h))
  ]

  pub drop_result_lem :
      (s : MultishotStore) (i : ℕ) (e : MultishotResultState)
      → S.get s i ≡ some e
      → (s' : MultishotStore) × (drop_result s i ≡ ret s') × Changes s i (released e) s'
  unfolding drop_result
  drop_result_lem s i e h = elim (Bool-cases e.finished) [
    | inl f ↦ (
      (S.try_remove s i).1,
      ground (arith, S.try_remove_value s i),
      λ j. rw f (S.get-try_remove s i j),
    )
    | inr f ↦
        (S.put s i (record e { dropped = true }), ground arith, λ j. rw f (S.get-put s i e _ j h))
  ]

  pub create_slot_fresh : (s : MultishotStore) → S.get s (create_slot s).0 ≡ none
  unfolding create_slot
  create_slot_fresh s = ground (arith, S.insert_key s fresh_slot, S.get-vacant s)

  pub create_slot_lem :
      (s : MultishotStore) → Changes s (create_slot s).0 (some fresh_slot) (create_slot s).1
  unfolding create_slot
  create_slot_lem s j = ground (arith, S.insert_key s fresh_slot, S.get-insert s fresh_slot j)
