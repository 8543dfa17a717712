-- ===== src/RingBuffer.antt =====
-- The crate `ringbuffer` as an interface: `ConstGenericRingBuffer<i32, 1024>`, as result.rs uses it,
-- with the behaviour that its documentation gives. `RingBuffer/Fifo.antt` has a value that meets it.
pub mod Fifo
mod Api
pub use Api.*
