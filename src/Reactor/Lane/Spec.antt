-- ===== src/Reactor/Lane/Spec.antt =====
-- The slots, the operations and the handles of one kind of I/O, and how they move.
use trale.Prelude.{ℕ, ◌≡◌, Bool, true, false, Option, none, some, ◌==◌, if◌then◌else◌}

-- `is_done`: the last completion has arrived. `is_dropped`: the future is gone.
pub record Slot : Type 0 where
  pub is_done : Bool
  pub is_dropped : Bool

pub record Lane : Type 0 where
  -- the slot of an operation in flight, by user data
  pub flying : ℕ → Option ℕ
  pub slots : ℕ → Option Slot
  -- the slot of a handle that has been submitted
  pub handles : ℕ → Option ℕ

abbrev pub Updates {ℓ} : {A : Type ℓ} → (ℕ → Option A) → ℕ → Option A → (ℕ → Option A) → Type ℓ
Updates f i o g = (j : ℕ) → g j ≡ (if i == j then o else f j)

abbrev pub Same {ℓ} : {A : Type ℓ} → (ℕ → A) → (ℕ → A) → Type ℓ
Same f g = (j : ℕ) → g j ≡ f j

abbrev pub new_slot : Slot
new_slot = record { is_done = false; is_dropped = false }

-- The last completion frees a slot whose future is gone, and the other way round.
abbrev pub completed : Slot → Option Slot
completed e = if e.is_dropped then none else some (record e { is_done = true })

abbrev pub released : Slot → Option Slot
released e = if e.is_done then none else some (record e { is_dropped = true })

pub data Move (l m : Lane) : Type 0 where
  stay : Same l.flying m.flying → Same l.slots m.slots → Same l.handles m.handles → Move l m
  submit :
      (u i h : ℕ)
      → l.flying u ≡ none
      → l.slots i ≡ none
      → l.handles h ≡ none
      → Updates l.flying u (some i) m.flying
      → Updates l.slots i (some new_slot) m.slots
      → Updates l.handles h (some i) m.handles
      → Move l m
  finish :
      (u i : ℕ) (e : Slot)
      → l.flying u ≡ some i
      → l.slots i ≡ some e
      → Updates l.flying u none m.flying
      → Updates l.slots i (completed e) m.slots
      → Same l.handles m.handles
      → Move l m
  take :
      (h i : ℕ) (e : Slot)
      → l.handles h ≡ some i
      → l.slots i ≡ some e
      → e.is_done ≡ true
      → Same l.flying m.flying
      → Updates l.slots i none m.slots
      → Updates l.handles h none m.handles
      → Move l m
  release :
      (h i : ℕ) (e : Slot)
      → l.handles h ≡ some i
      → l.slots i ≡ some e
      → Same l.flying m.flying
      → Updates l.slots i (released e) m.slots
      → Updates l.handles h none m.handles
      → Move l m

-- Every slot in use has its operation or its result, and its handle unless that was dropped; no two
-- operations and no two handles share a slot.
pub record Inv (l : Lane) : Type 0 where
  pub flying_slot :
      (u i : ℕ) → l.flying u ≡ some i → (e : Slot) × (l.slots i ≡ some e) × (e.is_done ≡ false)
  pub flying_unique : (u v i : ℕ) → l.flying u ≡ some i → l.flying v ≡ some i → u ≡ v
  pub handle_slot :
      (h i : ℕ) → l.handles h ≡ some i → (e : Slot) × (l.slots i ≡ some e) × (e.is_dropped ≡ false)
  pub handle_unique : (h k i : ℕ) → l.handles h ≡ some i → l.handles k ≡ some i → h ≡ k
  pub slot_flying :
      (i : ℕ) (e : Slot) → l.slots i ≡ some e → e.is_done ≡ false → (u : ℕ) × (l.flying u ≡ some i)
  pub slot_handle :
      (i : ℕ) (e : Slot)
      → l.slots i ≡ some e
      → e.is_dropped ≡ false
      → (h : ℕ) × (l.handles h ≡ some i)
  pub slot_needed :
      (i : ℕ) (e : Slot) → l.slots i ≡ some e → e.is_done ≡ true → e.is_dropped ≡ false
