-- ===== src/Slab.antt =====
-- The crate `slab` as an interface: what the reactor and the executor call of `Slab<T>`, with the
-- behaviour that its documentation gives. `Slab/Vector.antt` has a value that meets it.
pub mod Vector
mod Api
pub use Api.*
