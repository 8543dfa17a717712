-- ===== src/Examples/WebServer/Serving.antt =====
-- About `handle_connection` of examples/web_server.rs as a whole: a request for a file is served.
use mathlib.Core.List.{append_assoc}
use trale.Prelude.{
  ℕ, zero, suc, ◌+◌, ◌*◌, ◌^◌, ◌<◌, ◌≤◌, ◌≡◌, refl, ap, ◌∙◌, true, false, some, List, [], ◌∷◌, ◌++◌,
  ◌==◌, length, take, replicate, ret, arith, inl, inr, Bool-cases, same_fd_refl,
}
use trale.Libc.{LibcApi, World}
use trale.Reactor.Io.Value.{okay}
use trale.Futures.Files.{File}
use trale.Futures.Tcp.Defs.{TcpStream}
use trale.Examples.WebServer.Text.{codes, contains, PathBuf, join, has_nul}
use trale.Examples.WebServer.Response.{success, header}
use trale.Examples.WebServer.Api.{WebApi}
use trale.Examples.WebServer.Request.{terminator, read_request, target_of, file}
use trale.Examples.WebServer.Server.{handle_connection, send_file, send_opened}
use trale.Examples.WebServer.Bodies.{Fills, send_opened-sends}
use trale.Examples.WebServer.Reading.{Receives, concat, read_request-ends}
use trale.Examples.WebServer.Parsing.{
  IsWord, Lacks, lacks, request_line, request_line-Lacks, written, AreNames, target_of-request_line,
  route-names,
}

-- A text with the blank line has a newline.
contains-lacks : (cs : List ℕ) → lacks b'\n' cs ≡ true → contains terminator cs ≡ false
unfolding contains
contains-lacks [] h = refl
contains-lacks (c ∷ []) h = ground arith
contains-lacks (c ∷ d ∷ cs) h =
    let later : lacks b'\n' (d ∷ cs) ≡ true = ground arith in
    let none_later : contains terminator (d ∷ cs) ≡ false = contains-lacks (d ∷ cs) later in
    ground (arith, none_later)

-- A beginning of a text that has a newline has the whole first line.
first_line :
    (line request rest more : List ℕ)
    → Lacks b'\n' line
    → request ++ rest ≡ line ++ b'\n' ∷ more
    → lacks b'\n' request ≡ false
    → (more' : List ℕ) × (request ≡ line ++ b'\n' ∷ more')
first_line line [] rest more l e has = absurd (cc)
first_line [] (c ∷ request) rest more l e has = let same : c ≡ b'\n' = cc in (request, cc)
first_line (x ∷ line) (c ∷ request) rest more (h, l) e has =
    let same : c ≡ x = cc in
    let tails : request ++ rest ≡ line ++ b'\n' ∷ more = cc in
    let differs : (c == b'\n') ≡ false = ground arith in
    let (more', split') = first_line line request rest more l tails (ground arith) in (more', cc)

has_newline : (request : List ℕ) → contains terminator request ≡ true → lacks b'\n' request ≡ false
has_newline request has = elim (Bool-cases (lacks b'\n' request)) [
  | inl without ↦ absurd (cc (contains-lacks request without))
  | inr within ↦ within
]

-- The first texts are a beginning of all of them.
taken : (ts : List (List ℕ)) (i : ℕ) → (rest : List ℕ) × (concat (take i ts) ++ rest ≡ concat ts)
taken ts zero = (concat ts, refl)
taken [] (suc i) = ([], refl)
taken (t ∷ ts) (suc i) =
    let (rest, e) = taken ts i in
    (rest, append_assoc t (concat (take i ts)) rest ∙ ap (λ ys. t ++ ys) e)

module _ ⦃L : LibcApi⦄ ⦃W : WebApi⦄ (conn : TcpStream) where
  -- whenever the file is opened, it is there, and the peer takes what is sent
  abbrev pub IsServed : PathBuf → File → List ℕ → Type 0
  IsServed path f bytes =
      (u : World)
      → ((W.open_file path u).0 ≡ okay f)
        × (W.file_at (W.open_file path u).1 f ≡ some (bytes, 0))
        × (W.takes_all (W.open_file path u).1 conn ≡ true)

  handle_file :
      (n : ℕ) (webroot path : PathBuf) (f : File) (request : List ℕ) (w u w' : World)
      → read_request n conn [] w ≡ ret (some (okay request, u))
      → target_of webroot request ≡ ret (file path)
      → has_nul path.components ≡ false
      → (W.open_file path u).0 ≡ okay f
      → send_opened n conn f (W.open_file path u).1 ≡ ret (some (okay tt, w'))
      → handle_connection n webroot conn w
        ≡ ret (some (okay tt, L.close conn.inner (L.close f.inner w')))
  unfolding handle_connection send_file
  handle_file n webroot path f request w u w' got routed fine opened sent =
      rw (got, routed, fine, opened, sent) refl

  -- The request line is a GET of the path of some names, and the text of the request, with its
  -- blank line, arrives in reads that are each valid UTF-8. If the path has no zero byte, and the
  -- file below the web root is there whenever it is opened and the peer takes what is sent, then
  -- the connection's task ends, given enough fuel for the reads and the file's buffers; from its
  -- start to its end it has sent exactly the header with the file's length, the file's bytes, and
  -- zeros up to a whole number of buffers of 4096 bytes, and it has closed the connection.
  pub handle_connection-serves :
      (n : ℕ) (webroot : PathBuf) (p : List ℕ) (ps : List (List ℕ)) (more : List ℕ) (w : World)
      → (ts : List (List ℕ)) (f : File) (bytes : List ℕ) → AreNames (p ∷ ps)
      → IsWord (written (p ∷ ps))
      → has_nul (webroot.components ++ (p ∷ ps)) ≡ false
      → Receives conn w ts
      → concat ts ≡ request_line (codes "GET") (written (p ∷ ps)) ++ b'\n' ∷ more
      → contains terminator (concat ts) ≡ true
      → IsServed (join webroot (p ∷ ps)) f bytes
      → length ts < n
      → length bytes < 2 ^ 63
      → length bytes + 4096 ≤ n * 4096
      → (w' : World) × (k : ℕ) × (handle_connection n webroot conn w ≡ ret (some (okay tt, w')))
        × Fills bytes k
        × (W.sent w' conn
            ≡ W.sent w conn ++ (header success (length bytes) ++ (bytes ++ replicate k 0)))
        × (L.is_open w' conn.inner ≡ false)
  handle_connection-serves n webroot p ps more w ts f bytes names word fine arrives whole ends
        served lt small fuel =
      let path = join webroot (p ∷ ps) in
      let line = request_line (codes "GET") (written (p ∷ ps)) in
      let get-IsWord : IsWord (codes "GET") = (refl, (refl, (refl, tt))) in
      let (i, u, got, has, kept) = read_request-ends conn n [] w ts arrives ends lt in
      let request = concat (take i ts) in
      let (rest, beginning) = taken ts i in
      let (more', split') =
        first_line line request rest more
          (request_line-Lacks b'G' (codes "ET") (written (p ∷ ps)) get-IsWord word)
          (beginning ∙ whole) (has_newline request has) in
      let routed : target_of webroot request ≡ ret (file path) =
        ap (target_of webroot) split'
        ∙ (target_of-request_line webroot b'G' (codes "ET") (written (p ∷ ps)) more' get-IsWord
            word).0
        ∙ ap ret (route-names webroot p ps names) in
      let (opened, there, takes) = served u in
      let (w', k, sent, whole_buffers, bytes_sent) =
        send_opened-sends conn f bytes n (W.open_file path u).1 0 there takes small fuel in
      (
        L.close conn.inner (L.close f.inner w'),
        k,
        handle_file n webroot path f request w u w' got routed fine opened sent,
        whole_buffers,
        W.sent-close (L.close f.inner w') conn.inner conn
            ∙ W.sent-close w' f.inner conn
            ∙ bytes_sent
            ∙ ap (λ ys. ys ++ (header success (length bytes) ++ (bytes ++ replicate k 0)))
                (W.sent-open_file u path conn ∙ kept),
        rw (L.is_open-close conn.inner (L.close f.inner w') conn.inner, same_fd_refl conn.inner)
            refl,
      )
