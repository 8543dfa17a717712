-- ===== src/Examples/WebServer/Reading.antt =====
-- About the loop that reads a request in `handle_connection` of examples/web_server.rs.
use mathlib.Core.List.{append_assoc, append-nil}
use trale.Prelude.{
  ℕ, zero, suc, ◌<◌, ◌≡◌, refl, sym, ap, ◌∙◌, inl, inr, true, false, Bool-cases, none, some, List,
  [], ◌∷◌, ◌++◌, length, take, ret, arith,
}
use trale.Libc.{LibcApi, World}
use trale.Reactor.Io.Value.{okay}
use trale.Futures.Tcp.Defs.{TcpStream}
use trale.Examples.WebServer.Text.{from_utf8, contains}
use trale.Examples.WebServer.Api.{WebApi}
use trale.Examples.WebServer.Request.{read_request, terminator}

abbrev pub concat : List (List ℕ) → List ℕ
concat [] = []
concat (t ∷ ts) = t ++ concat ts

module _ ⦃L : LibcApi⦄ ⦃W : WebApi⦄ (conn : TcpStream) where
  -- The next reads of the connection yield these texts.
  pub data Receives : World → List (List ℕ) → Type 0 where
    nothing : {w : World} → Receives w []
    next :
        {w : World} {bytes text : List ℕ} {ts : List (List ℕ)}
        → (W.receive conn 1024 w).0 ≡ okay bytes
        → from_utf8 bytes ≡ some text
        → Receives (W.receive conn 1024 w).1 ts
        → Receives w (text ∷ ts)

  read_request_done :
      (n : ℕ) (request : List ℕ) (w : World)
      → contains terminator request ≡ true
      → read_request (suc n) conn request w ≡ ret (some (okay request, w))
  unfolding read_request
  read_request_done n request w has = rw has refl

  read_request_next :
      (n : ℕ) (request bytes text : List ℕ) (w : World)
      → contains terminator request ≡ false
      → (W.receive conn 1024 w).0 ≡ okay bytes
      → from_utf8 bytes ≡ some text
      → read_request (suc n) conn request w
        ≡ read_request n conn (request ++ text) (W.receive conn 1024 w).1
  unfolding read_request
  read_request_next n request bytes text w lacks got valid = rw (lacks, got, valid) refl

  -- What the loop returns: the request with the first `k` of the texts, which ends the header.
  abbrev pub Ended : ℕ → List ℕ → World → List (List ℕ) → Type 0
  Ended n request w ts =
      (k : ℕ) × (w' : World) × (read_request n conn request w
        ≡ ret (some (okay (request ++ concat (take k ts)), w')))
      × (contains terminator (request ++ concat (take k ts)) ≡ true)
      × (W.sent w' conn ≡ W.sent w conn)

  Ended-here :
      (n : ℕ) (request : List ℕ) (w : World) (ts : List (List ℕ))
      → contains terminator request ≡ true
      → Ended (suc n) request w ts
  Ended-here n request w ts has =
      let same : request ++ [] ≡ request = append-nil request in
      (
        0,
        w,
        read_request_done n request w has ∙ ap (λ r. ret (some (okay r, w))) (sym same),
        ap (contains terminator) same ∙ has,
        refl,
      )

  -- However the kernel cuts the request into reads, each of which is valid UTF-8 by itself: if the
  -- texts that arrive contain the blank line, the loop returns, with fuel for one more round than
  -- there are texts; it returns the texts up to some read, they contain the blank line, and nothing
  -- has been sent.
  pub read_request-ends :
      (n : ℕ) (request : List ℕ) (w : World) (ts : List (List ℕ))
      → Receives w ts
      → contains terminator (request ++ concat ts) ≡ true
      → length ts < n
      → Ended n request w ts
  read_request-ends zero request w ts r has lt = absurd (omega arith)
  read_request-ends (suc n) request w [] nothing has lt =
      Ended-here n request w [] (ap (contains terminator) (sym (append-nil request)) ∙ has)
  read_request-ends (suc n) request w (text ∷ ts) (next {bytes} got valid r) has lt =
      elim (Bool-cases (contains terminator request)) [
        | inl now ↦ Ended-here n request w (text ∷ ts) now
        | inr lacks ↦
            let (k, w', ran, has', kept) =
              read_request-ends n (request ++ text) (W.receive conn 1024 w).1 ts r
                (ap (contains terminator) (append_assoc request text (concat ts)) ∙ has)
                (omega arith) in
            let same = append_assoc request text (concat (take k ts)) in
            (
              suc k,
              w',
              read_request_next n request bytes text w lacks got valid
                  ∙ ran
                  ∙ ap (λ r. ret (some (okay r, w'))) same,
              ap (contains terminator) (sym same) ∙ has',
              kept ∙ W.sent-receive w conn 1024 conn,
            )
      ]

  -- The peer has closed the connection: every read from here on returns no bytes.
  pub record IsClosed (C : World → Type 0) : Type 0 where
    pub empty : (w : World) → C w → (W.receive conn 1024 w).0 ≡ okay []
    pub stays : (w : World) → C w → C (W.receive conn 1024 w).1

  -- If the peer closes the connection before the request contains the blank line, so that every
  -- further read returns no bytes, then the loop that reads the request never returns: it is out
  -- of fuel for any amount of fuel.
  pub read_request-starves :
      (C : World → Type 0)
      → IsClosed C
      → (n : ℕ) (request : List ℕ) (w : World) → C w
      → contains terminator request ≡ false
      → read_request n conn request w ≡ ret none
  unfolding read_request from_utf8
  read_request-starves C closed zero request w c lacks = refl
  read_request-starves C closed (suc n) request w c lacks =
      let same : request ++ [] ≡ request = append-nil request in
      rw (lacks, closed.empty w c, same)
        (read_request-starves C closed n request (W.receive conn 1024 w).1 (closed.stays w c) lacks)
