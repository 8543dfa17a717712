-- ===== src/Examples/WebServer/Server.antt =====
-- `send_response_hdr`, `send_file` and `handle_connection` in examples/web_server.rs. A connection's
-- task runs as the executor schedules it; here each call is followed to its end.
use trale.Prelude.{
  ℕ, zero, suc, ◌-◌, Bool, true, false, Option, none, some, List, [], ◌∷◌, ◌++◌, if◌then◌else◌,
  ◌==◌, length, replicate, ret, panic, ◌>>=◌, Panic, pos, ℤ,
}
use trale.Libc.{LibcApi, World}
use trale.Reactor.Io.Value.{IoResult, okay, fail, IoError, os_error, of_kind, ErrorKind}
use trale.Futures.Files.{File, seek, SeekFrom}
use trale.Futures.Tcp.Defs.{TcpStream}
use trale.Examples.WebServer.Text.{PathBuf, has_nul}
use trale.Examples.WebServer.Response.{Response, not_found, server_error, success, header}
use trale.Examples.WebServer.Api.{WebApi}
use trale.Examples.WebServer.Request.{Served, read_request, Target, refuse, file, target_of}

-- `e.kind() == ErrorKind::NotFound`; the error number is `ENOENT`
abbrev pub is_not_found : IoError → Bool
is_not_found (os_error (pos n)) = n == 2
is_not_found (of_kind ErrorKind.not_found) = true
is_not_found e = false

-- a buffer of zeros, after a read has filled its front
abbrev pub filled : ℕ → List ℕ → List ℕ
filled n bytes = bytes ++ replicate (n - length bytes) 0

module _ ⦃L : LibcApi⦄ where
  -- `?` on a result, and the rest of the call
  abbrev pub then_ok {ℓ} :
      {A : Type ℓ} {B : Type 0} → IoResult A × World → (A → World → Served B) → Served B
  then_ok (okay a, w) rest = rest a w
  then_ok (fail e, w) rest = ret (some (fail e, w))

  abbrev pub then_served :
      {A B : Type 0} → Option (IoResult A × World) → (A → World → Served B) → Served B
  then_served none rest = ret none
  then_served (some (okay a, w)) rest = rest a w
  then_served (some (fail e, w)) rest = ret (some (fail e, w))

  -- the end of a scope that owns a descriptor
  abbrev pub closing : ℤ → Option (IoResult (Unit {0}) × World) → Served (Unit {0})
  closing fd none = ret none
  closing fd (some (r, w)) = ret (some (r, L.close fd w))

  module _ ⦃W : WebApi⦄ where
    -- `send_response_hdr`
    unfoldable pub send_response_hdr : TcpStream → Response → ℕ → World → Served (Unit {0})
    unfolding header
    send_response_hdr conn code content_length w =
        then_ok (W.write conn (header code content_length) w) (λ n u. ret (some (okay tt, u)))

    -- one round of the loop in `send_file`, after its read
    abbrev pub write_read :
        TcpStream → (World → Served (Unit {0})) → List ℕ → World → Served (Unit {0})
    write_read conn rest [] w = ret (some (okay tt, w))
    write_read conn rest (b ∷ bs) w =
        then_ok (W.write conn (filled 4096 (b ∷ bs)) w) (λ n u. rest u)

    unfoldable pub send_body : ℕ → TcpStream → File → World → Served (Unit {0})
    send_body zero conn f w = ret none
    send_body (suc n) conn f w =
        then_ok (W.read f 4096 w) (write_read conn (λ u. send_body n conn f u))

    -- the branch of an open file
    unfoldable pub send_opened : ℕ → TcpStream → File → World → Served (Unit {0})
    unfolding seek send_response_hdr send_body
    send_opened n conn f w = then_ok (seek f (SeekFrom.end_ (pos 0)) w) λ size w1.
        then_ok (seek f (SeekFrom.start 0) w1) λ p w2. do
          o ← send_response_hdr conn success size w2
          then_served o (λ u w3. send_body n conn f w3)

    abbrev pub answer_open : ℕ → TcpStream → IoResult File × World → Served (Unit {0})
    answer_open n conn (okay f, w) = do o ← send_opened n conn f w; closing f.inner o
    answer_open n conn (fail e, w) =
        send_response_hdr conn (if is_not_found e then not_found else server_error) 0 w

    -- `send_file`; `File::open` unwraps the `CString` of the path
    unfoldable pub send_file : ℕ → TcpStream → PathBuf → World → Served (Unit {0})
    unfolding has_nul send_opened send_response_hdr
    send_file n conn path w =
        let sent = answer_open n conn (W.open_file path w) in
        if has_nul path.components then panic Panic.unwrap_failed else sent

    abbrev pub answer : ℕ → TcpStream → Target → World → Served (Unit {0})
    answer n conn (refuse code) w = send_response_hdr conn code 0 w
    answer n conn (file path) w = send_file n conn path w

    -- `handle_connection`, which closes the connection at its end; both loops have the same fuel
    unfoldable pub handle_connection : ℕ → PathBuf → TcpStream → World → Served (Unit {0})
    unfolding read_request target_of send_file send_response_hdr
    handle_connection n webroot conn w = do
      o ← read_request n conn [] w
      o' ← then_served o λ request u. do target ← target_of webroot request; answer n conn target u
      closing conn.inner o'
