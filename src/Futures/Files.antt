-- ===== src/Futures/Files.antt =====
-- src/futures/fs.rs: opening and making files and directories, and the position in a file.
use trale.Prelude.{
  ℕ, ◌+◌, ◌^◌, ◌-◌, Bool, true, Option, none, some, List, [], ◌∷◌, if◌then◌else◌, ltb, ◌==◌,
  Outcome, ret, ◌>>=◌, Panic, unwrap, ℤ, pos, negsuc, as_usize, is_minus_one, ◌||◌,
}
use trale.Slab.{SlabApi}
use trale.RingBuffer.{BufferApi}
use trale.Uring.{UringApi, Buf, Opcode}
use trale.Libc.{LibcApi, World, Whence, seek_set, seek_end, seek_cur}
use trale.Reactor.Ring.Defs.{ReactorInner}
use trale.Reactor.Io.Value.{IoResult, okay, fail, os_error, Poll, map_poll, map_result}
use trale.Reactor.Io.Oneshot
use trale.Futures.Transfer.{AsyncReader, AsyncWriter}

pub record File : Type 0 where
  pub inner : ℤ

-- A `CString` is its bytes, without the final zero.
pub record FileOpen : Type 0 where
  pub path : List ℕ
  pub flags : ℕ
  pub io : Oneshot.IoState

pub record Mkdir : Type 0 where
  pub io : Oneshot.IoState
  pub path : List ℕ

-- constants of `libc` on Linux
abbrev pub at_fdcwd : ℤ
at_fdcwd = negsuc 99

abbrev pub o_rdwr : ℕ
o_rdwr = 2

abbrev pub o_creat : ℕ
o_creat = 64

abbrev has_nul : List ℕ → Bool
has_nul [] = Bool.false
has_nul (b ∷ bs) = (b == 0) || has_nul bs

-- `CString::new`, which refuses a zero byte
abbrev pub c_string : List ℕ → Option (List ℕ)
c_string bytes = if has_nul bytes then none else some bytes

-- `File::open`
unfoldable pub open_file : List ℕ → Outcome FileOpen
unfolding Oneshot.new
open_file path = do
  path' ← unwrap Panic.unwrap_failed (c_string path)
  ret (record { path = path'; flags = o_rdwr; io = Oneshot.new })

-- `File::create`; the flags are different bits
unfoldable pub create_file : List ℕ → Outcome FileOpen
unfolding Oneshot.new
create_file path = do
  path' ← unwrap Panic.unwrap_failed (c_string path)
  ret (record { path = path'; flags = o_rdwr + o_creat; io = Oneshot.new })

-- `File::mkdir`
unfoldable pub mkdir : List ℕ → Outcome Mkdir
unfolding Oneshot.new
mkdir path = do
  path' ← unwrap Panic.unwrap_failed (c_string path)
  ret (record { path = path'; io = Oneshot.new })

-- `AsyncRead` and `AsyncWrite` for `File`
unfoldable pub read : File → Buf → AsyncReader
unfolding Oneshot.new
read this buf = record { fd = this.inner; io = Oneshot.new; buf = buf; seekable = true }

unfoldable pub write : File → Buf → AsyncWriter
unfolding Oneshot.new
write this buf = record { fd = this.inner; io = Oneshot.new; buf = buf; seekable = true }

-- `io::SeekFrom`: a `u64`, or an `i64`
pub data SeekFrom : Type 0 where
  start : ℕ → SeekFrom
  end_ : ℤ → SeekFrom
  current : ℤ → SeekFrom

-- `off as i64` for a `u64`
abbrev pub as_i64 : ℕ → ℤ
as_i64 n = if ltb n (2 ^ 63) then pos n else negsuc (2 ^ 64 - 1 - n)

abbrev pub whence_of : SeekFrom → ℤ × Whence
whence_of (start off) = (as_i64 off, seek_set)
whence_of (end_ off) = (off, seek_end)
whence_of (current off) = (off, seek_cur)

module _ ⦃L : LibcApi⦄ where
  -- `Seek::seek`
  unfoldable pub seek : File → SeekFrom → World → IoResult ℕ × World
  seek this p w =
      let (off, whence) = whence_of p in
      let (res, w') = L.lseek this.inner off whence w in
      (if is_minus_one res then fail (os_error (L.errno w')) else okay (as_usize res), w')

-- what `FileOpen::poll` makes of the descriptor
abbrev pub file_of : ℤ → File
file_of fd = record { inner = fd }

module _ ⦃S : SlabApi⦄ ⦃B : BufferApi⦄ ⦃U : UringApi⦄ {T : Type 0} where
  -- `FileOpen::poll`; the mode is 0o777
  unfoldable pub poll_open :
      FileOpen → T → ReactorInner T → Outcome (Poll (IoResult File) × FileOpen × ReactorInner T)
  poll_open this waker r = do
    (p, io, r') ←
        Oneshot.submit_or_get_result this.io
          (λ _. (U.build (Opcode.open_at at_fdcwd this.path this.flags 511), waker)) r
    ret (map_poll (map_result file_of) p, record this { io = io }, r')

  -- `Mkdir::poll`
  unfoldable pub poll_mkdir :
      Mkdir → T → ReactorInner T → Outcome (Poll (IoResult (Unit {0})) × Mkdir × ReactorInner T)
  poll_mkdir this waker r = do
    (p, io, r') ←
        Oneshot.submit_or_get_result this.io
          (λ _. (U.build (Opcode.mkdir_at at_fdcwd this.path 511), waker)) r
    ret (map_poll (map_result (λ _. tt)) p, record this { io = io }, r')
