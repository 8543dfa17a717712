-- ===== src/Reactor/Result/Oneshot/Slots.antt =====
-- What each operation of `OneshotStore` does to its slots, as a map from keys to states.
use trale.Prelude.{ℕ, ◌≡◌, Option, none, some, ret, ℤ, arith}
use trale.Slab.{SlabApi, Changes}
use trale.Reactor.Result.Oneshot.{
  ResultState, pending, set_to, dropped, OneshotStore, set_result, get_result, drop_result,
  create_slot,
}

-- The life of a slot: what is left of it after a completion, and after its future is dropped.
abbrev pub completed : ℤ → ResultState → Option ResultState
completed r dropped = none
completed r _ = some (set_to r)

abbrev pub released : ResultState → Option ResultState
released (set_to r) = none
released _ = some dropped

module _ ⦃S : SlabApi⦄ where
  pub set_result_lem :
      (s : OneshotStore) (r : ℤ) (i : ℕ) (e : ResultState)
      → S.get s i ≡ some e
      → (s' : OneshotStore) × (set_result s r i ≡ ret s') × Changes s i (completed r e) s'
  unfolding set_result
  set_result_lem s r i pending h =
      (S.put s i (set_to r), ground arith, λ j. S.get-put s i pending (set_to r) j h)
  set_result_lem s r i (set_to q) h =
      (S.put s i (set_to r), ground arith, λ j. S.get-put s i (set_to q) (set_to r) j h)
  set_result_lem s r i dropped h =
      ((S.try_remove s i).1, ground (arith, S.try_remove_value s i), λ j. S.get-try_remove s i j)

  pub get_result_pending :
      (s : OneshotStore) (i : ℕ) → S.get s i ≡ some pending → get_result s i ≡ ret (none, s)
  unfolding get_result
  get_result_pending s i h = ground arith

  pub get_result_set :
      (s : OneshotStore) (i : ℕ) (r : ℤ)
      → S.get s i ≡ some (set_to r)
      → (s' : OneshotStore) × (get_result s i ≡ ret (some r, s')) × Changes s i none s'
  unfolding get_result
  get_result_set s i r h =
      ((S.try_remove s i).1, ground (arith, S.try_remove_value s i), λ j. S.get-try_remove s i j)

  pub drop_result_lem :
      (s : OneshotStore) (i : ℕ) (e : ResultState)
      → S.get s i ≡ some e
      → (s' : OneshotStore) × (drop_result s i ≡ ret s') × Changes s i (released e) s'
  unfolding drop_result
  drop_result_lem s i pending h =
      (S.put s i dropped, ground arith, λ j. S.get-put s i pending dropped j h)
  drop_result_lem s i dropped h =
      (S.put s i dropped, ground arith, λ j. S.get-put s i dropped dropped j h)
  drop_result_lem s i (set_to q) h =
      ((S.try_remove s i).1, ground (arith, S.try_remove_value s i), λ j. S.get-try_remove s i j)

  pub create_slot_fresh : (s : OneshotStore) → S.get s (create_slot s).0 ≡ none
  unfolding create_slot
  create_slot_fresh s = ground (arith, S.insert_key s pending, S.get-vacant s)

  pub create_slot_lem :
      (s : OneshotStore) → Changes s (create_slot s).0 (some pending) (create_slot s).1
  unfolding create_slot
  create_slot_lem s j = ground (arith, S.insert_key s pending, S.get-insert s pending j)
