-- ===== src/RingBuffer/Fifo.antt =====
-- A ring buffer as the list of its values.
use trale.Prelude.{refl, List, [], ◌∷◌, ◌++◌, ltb, if◌then◌else◌, length, head?, tail, ℤ}
use trale.RingBuffer.Api.{BufferApi, capacity}

instance abbrev pub fifo_buffer : BufferApi
fifo_buffer = record {
  Buffer = List ℤ;
  new = [];
  push = λ b v. if ltb (length b) capacity then b ++ v ∷ [] else tail b ++ v ∷ [];
  dequeue = λ b. (head? b, tail b);
  to_vec = λ b. b;
  to_vec-new = refl;
  to_vec-push = λ b v. refl;
  dequeue_value = λ b. refl;
  to_vec-dequeue = λ b. refl;
}
