-- ===== src/Examples/WebServer/Api.antt =====
-- What examples/web_server.rs and the echo tasks of examples/ await: the results of the library's reads, writes and openings, which
-- the kernel decides. A file is regular: a read of it is short only at its end.
use trale.Prelude.{
  ℕ, ◌+◌, ◌<◌, ◌^◌, ◌≡◌, Bool, true, Option, some, List, [], ◌∷◌, ◌++◌, length, take, drop, pos, ℤ,
  Outcome,
}
use trale.Libc.{LibcApi, World, seek_end, seek_set}
use trale.Reactor.Io.Value.{IoResult, okay}
use trale.Futures.Files.{File}
use trale.Futures.Tcp.Defs.{TcpStream, TcpListener}
use trale.Futures.SockAddr.{SocketAddr}
use trale.Examples.WebServer.Text.{PathBuf}

pub record WebApi ⦃L : LibcApi⦄ : Type 0 where
  -- a read of a connection or of a file into a buffer of this length: the bytes that it fills
  pub receive : TcpStream → ℕ → World → IoResult (List ℕ) × World
  pub read : File → ℕ → World → IoResult (List ℕ) × World
  -- a write of the bytes of a buffer: how many the kernel has taken
  pub write : TcpStream → List ℕ → World → IoResult ℕ × World
  pub open_file : PathBuf → World → IoResult File × World
  -- `next` of a listener, and the drop of the listener, which cancels its operation
  pub accept : TcpListener → World → Option (IoResult TcpStream) × World
  pub drop_listener : TcpListener → World → Outcome World
  -- `TcpStream::connect` to the addresses that its argument resolves to
  pub connect : IoResult (List SocketAddr) → World → IoResult TcpStream × World
  -- the bytes of an open file, and the position in it
  pub file_at : World → File → Option (List ℕ × ℕ)
  -- the bytes that a connection has sent
  pub sent : World → TcpStream → List ℕ
  -- the bytes that the peer will have sent, and not been read, when it closes the connection
  pub incoming : World → TcpStream → List ℕ
  -- the peer takes whatever is written, whole, and sends without errors
  pub takes_all : World → TcpStream → Bool
  pub lseek_at_end :
      (w : World) (f : File) (bytes : List ℕ) (p : ℕ)
      → file_at w f ≡ some (bytes, p)
      → length bytes < 2 ^ 63
      → let r = L.lseek f.inner (pos 0) seek_end w in
        (r.0 ≡ pos (length bytes))
        × (file_at r.1 f ≡ some (bytes, length bytes))
        × ((s : TcpStream) → (sent r.1 s ≡ sent w s) × (takes_all r.1 s ≡ takes_all w s))
  pub lseek_at_start :
      (w : World) (f : File) (bytes : List ℕ) (p : ℕ)
      → file_at w f ≡ some (bytes, p)
      → let r = L.lseek f.inner (pos 0) seek_set w in
        (r.0 ≡ pos 0)
        × (file_at r.1 f ≡ some (bytes, 0))
        × ((s : TcpStream) → (sent r.1 s ≡ sent w s) × (takes_all r.1 s ≡ takes_all w s))
  pub read_file :
      (w : World) (f : File) (n : ℕ) (bytes : List ℕ) (p : ℕ)
      → file_at w f ≡ some (bytes, p)
      → let r = read f n w in
        let filled = take n (drop p bytes) in
        (r.0 ≡ okay filled)
        × (file_at r.1 f ≡ some (bytes, p + length filled))
        × ((s : TcpStream) → (sent r.1 s ≡ sent w s) × (takes_all r.1 s ≡ takes_all w s))
  pub receive_end :
      (w : World) (s : TcpStream)
      → takes_all w s ≡ true
      → incoming w s ≡ []
      → let r = receive s 1 w in (r.0 ≡ okay []) × (sent r.1 s ≡ sent w s)
  pub receive_byte :
      (w : World) (s : TcpStream) (b : ℕ) (bs : List ℕ)
      → takes_all w s ≡ true
      → incoming w s ≡ b ∷ bs
      → let r = receive s 1 w in
        (r.0 ≡ okay (b ∷ []))
        × (incoming r.1 s ≡ bs)
        × (sent r.1 s ≡ sent w s)
        × (takes_all r.1 s ≡ true)
  pub sent-receive :
      (w : World) (s : TcpStream) (n : ℕ) (t : TcpStream) → sent (receive s n w).1 t ≡ sent w t
  pub sent-open_file :
      (w : World) (path : PathBuf) (s : TcpStream) → sent (open_file path w).1 s ≡ sent w s
  pub sent-close : (w : World) (fd : ℤ) (s : TcpStream) → sent (L.close fd w) s ≡ sent w s
  pub write_all :
      (w : World) (s : TcpStream) (buf : List ℕ)
      → takes_all w s ≡ true
      → let r = write s buf w in
        (r.0 ≡ okay (length buf))
        × (sent r.1 s ≡ sent w s ++ buf)
        × (takes_all r.1 s ≡ true)
        × ((f : File) → file_at r.1 f ≡ file_at w f)
        × (incoming r.1 s ≡ incoming w s)
