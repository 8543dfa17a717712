-- ===== src/Reactor/Io/Value.antt =====
-- `reactor_value_to_result` of src/reactor/uring/io/mod.rs, and the library types it returns.
use trale.Prelude.{suc, ◌^◌, ◌==◌, if◌then◌else◌, ℤ, pos, negsuc, is_negative}

pub data ErrorKind : Type 0 where
  not_found invalid_data unexpected_eof : ErrorKind

-- `std::io::Error`: an `errno`, or a kind.
pub data IoError : Type 0 where
  os_error : ℤ → IoError
  of_kind : ErrorKind → IoError

-- `std::io::Result`
pub data IoResult {ℓ} (A : Type ℓ) : Type ℓ where
  okay : A → IoResult A
  fail : IoError → IoResult A

pub data Poll {ℓ} (A : Type ℓ) : Type ℓ where
  pending : Poll A
  ready : A → Poll A

-- `Poll::map` and `Result::map`
abbrev pub map_poll {ℓ κ} : {A : Type ℓ} {B : Type κ} → (A → B) → Poll A → Poll B
map_poll f pending = pending
map_poll f (ready a) = ready (f a)

abbrev pub map_result {ℓ κ} : {A : Type ℓ} {B : Type κ} → (A → B) → IoResult A → IoResult B
map_result f (okay a) = okay (f a)
map_result f (fail e) = fail e

-- `i32::abs` of a release build: the least value is its own absolute value.
abbrev pub abs_i32 : ℤ → ℤ
abs_i32 (pos n) = pos n
abs_i32 (negsuc n) = if suc n == 2 ^ 31 then negsuc n else pos (suc n)

unfoldable pub reactor_value_to_result : ℤ → IoResult ℤ
reactor_value_to_result v = if is_negative v then fail (os_error (abs_i32 v)) else okay v
