-- ===== src/Libc.antt =====
-- The crate `libc` and the standard library's system calls as an interface: sockets, event and timer
-- descriptors, and byte order. `Libc/Table.antt` has a value that meets it.
pub mod Table
mod Api
pub use Api.*
