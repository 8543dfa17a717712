-- ===== src/Examples/WebServer/Request.antt =====
-- `handle_connection` of examples/web_server.rs up to the answer: the loop that reads the request,
-- and the choice of the file.
use trale.Prelude.{
  ℕ, zero, suc, Option, none, some, List, [], ◌∷◌, ◌++◌, if◌then◌else◌, head?, Outcome, ret, panic,
  ◌>>=◌, Panic, unwrap,
}
use trale.Libc.{LibcApi, World}
use trale.Reactor.Io.Value.{IoResult, okay, fail}
use trale.Futures.Tcp.Defs.{TcpStream}
use trale.Examples.WebServer.Text.{
  codes, from_utf8, contains, split, trim, to_lowercase, same_text, PathBuf, path_from, is_root,
  strip_root, join,
}
use trale.Examples.WebServer.Response.{Response, not_implemented, not_found}
use trale.Examples.WebServer.Api.{WebApi}

-- An `async` call that is awaited to its end, with `?` on its result: it may panic, and `none`
-- means that a loop ran out of fuel.
abbrev pub Served : ⦃L : LibcApi⦄ → Type 0 → Type 0
Served A = Outcome (Option (IoResult A × World))

-- the end of the request's header
abbrev pub terminator : List ℕ
terminator = codes "\r\n\r\n"

module _ ⦃L : LibcApi⦄ ⦃W : WebApi⦄ where
  -- what one read comes to, and the loop that goes on with the longer request
  abbrev pub push_read :
      IoResult (List ℕ) × World → List ℕ → (List ℕ → World → Served (List ℕ)) → Served (List ℕ)
  push_read (fail e, w) request rest = ret (some (fail e, w))
  push_read (okay bytes, w) request rest = do
    text ← unwrap Panic.unwrap_failed (from_utf8 bytes)
    rest (request ++ text) w

  unfoldable pub read_request : ℕ → TcpStream → List ℕ → World → Served (List ℕ)
  unfolding contains from_utf8
  read_request zero conn request w = ret none
  read_request (suc n) conn request w =
      let rest = push_read (W.receive conn 1024 w) request (λ r u. read_request n conn r u) in
      if contains terminator request then ret (some (okay request, w)) else rest

-- What the request asks for: a response without a body, or a file.
pub data Target : Type 0 where
  refuse : Response → Target
  file : PathBuf → Target

-- `parts[0]` and `parts[1]`
abbrev pub words : List (List ℕ) → Outcome (List ℕ × List ℕ)
words (method ∷ path ∷ rest) = ret (method, path)
words parts = panic Panic.out_of_bounds

abbrev pub under : PathBuf → Option (List (List ℕ)) → Target
under webroot none = refuse not_found
under webroot (some rest) = file (join webroot rest)

unfoldable pub route : PathBuf → List ℕ → List ℕ → Target
unfolding path_from
route webroot method path =
    if same_text (to_lowercase method) (codes "get")
    then (if is_root (path_from path)
        then file (join webroot (codes "index.html" ∷ []))
        else under webroot (strip_root (path_from path)))
    else refuse not_implemented

-- from the request to its answer
unfoldable pub target_of : PathBuf → List ℕ → Outcome Target
unfolding split trim route
target_of webroot request = do
  line ← unwrap Panic.unwrap_failed (head? (split b'\n' request))
  (method, path) ← words (split b' ' (trim line))
  ret (route webroot method path)
