-- ===== src/RingBuffer/Api.antt =====
-- `ringbuffer::ConstGenericRingBuffer<i32, 1024>`.
use trale.Prelude.{ℕ, ◌≡◌, Option, List, [], ◌∷◌, ◌++◌, ltb, if◌then◌else◌, length, head?, tail, ℤ}

abbrev pub capacity : ℕ
capacity = 1024

pub record BufferApi : Type 1 where
  pub Buffer : Type 0
  pub new : Buffer
  pub push : Buffer → ℤ → Buffer
  pub dequeue : Buffer → Option ℤ × Buffer
  -- oldest first
  pub to_vec : Buffer → List ℤ
  pub to_vec-new : to_vec new ≡ []
  -- a push into a full buffer overwrites the oldest value
  pub to_vec-push :
      (b : Buffer) (v : ℤ)
      → to_vec (push b v) ≡ (
          if ltb (length (to_vec b)) capacity
          then to_vec b ++ v ∷ []
          else tail (to_vec b) ++ v ∷ [])
  pub dequeue_value : (b : Buffer) → (dequeue b).0 ≡ head? (to_vec b)
  pub to_vec-dequeue : (b : Buffer) → to_vec (dequeue b).1 ≡ tail (to_vec b)

abbrev pub Buffer : ⦃B : BufferApi⦄ → Type 0
Buffer ⦃B⦄ = B.Buffer
