-- ===== src/Examples/Echo/Echoing.antt =====
-- About the echo tasks of examples/tcp_serv.rs and examples/tcp.rs.
use mathlib.Core.List.{append_assoc, append-nil}
use trale.Prelude.{
  ℕ, zero, suc, ◌+◌, ◌<◌, ◌≡◌, refl, sym, ap, ◌∙◌, true, some, List, [], ◌∷◌, ◌++◌, length, ret,
  arith, ◌>>=◌, false, same_fd_refl,
}
use trale.Libc.{LibcApi, World}
use trale.Reactor.Io.Value.{IoResult, okay}
use trale.Futures.Tcp.Defs.{TcpStream, TcpListener, bind}
use trale.Futures.SockAddr.{SocketAddr}
use trale.Examples.WebServer.Api.{WebApi}
use trale.Examples.Echo.{echo, ended, serve, converse}

module _ ⦃L : LibcApi⦄ ⦃W : WebApi⦄ (conn : TcpStream) where
  echo_stops :
      (n count : ℕ) (w : World)
      → (W.receive conn 1 w).0 ≡ okay []
      → echo (suc n) conn count w ≡ ret (some (okay count, (W.receive conn 1 w).1))
  unfolding echo
  echo_stops n count w got = rw got refl

  echo_goes_on :
      (n count b m : ℕ) (w : World)
      → let u = (W.receive conn 1 w).1 in
        (W.receive conn 1 w).0 ≡ okay (b ∷ [])
        → (W.write conn (b ∷ []) u).0 ≡ okay m
        → echo (suc n) conn count w ≡ echo n conn (suc count) (W.write conn (b ∷ []) u).1
  unfolding echo
  echo_goes_on n count b m w got wrote = rw (got, wrote) refl

  -- If the peer takes what is sent, sends some bytes without errors and then closes the
  -- connection, then the echo task ends, given more fuel than there are bytes: it has sent
  -- exactly these bytes back, in their order, and returns their number on top of the count that
  -- it began with.
  pub echo_returns :
      (xs : List ℕ) (n count : ℕ) (w : World)
      → W.takes_all w conn ≡ true
      → W.incoming w conn ≡ xs
      → length xs < n
      → (w' : World) × (echo n conn count w ≡ ret (some (okay (count + length xs), w')))
        × (W.sent w' conn ≡ W.sent w conn ++ xs)
  echo_returns xs zero count w takes comes lt = absurd (omega arith)
  echo_returns [] (suc n) count w takes comes lt =
      let (got, kept) = W.receive_end w conn takes comes in
      let none_more : count ≡ count + 0 = omega arith in
      let u = (W.receive conn 1 w).1 in
      (
        u,
        echo_stops n count w got ∙ ap (λ k. ret (some (okay k, u))) none_more,
        kept ∙ sym (append-nil (W.sent w conn)),
      )
  echo_returns (b ∷ bs) (suc n) count w takes comes lt =
      let (got, left, kept, taking) = W.receive_byte w conn b bs takes comes in
      let u = (W.receive conn 1 w).1 in
      let (wrote, grown, taking', files, unread) = W.write_all u conn (b ∷ []) taking in
      let (w', ran, all_sent) =
        echo_returns bs n (suc count) (W.write conn (b ∷ []) u).1 taking' (unread ∙ left)
          (omega arith) in
      let counted : suc count + length bs ≡ count + length (b ∷ bs) = omega arith in
      (
        w',
        echo_goes_on n count b 1 w got wrote ∙ ran ∙ ap (λ k. ret (some (okay k, w'))) counted,
        all_sent
            ∙ ap (λ ys. ys ++ bs) (grown ∙ ap (λ ys. ys ++ (b ∷ [])) kept)
            ∙ append_assoc (W.sent w conn) (b ∷ []) bs,
      )

  -- What the task has done at its end: it has sent the bytes back, and the connection is closed.
  abbrev pub Conversed : List ℕ → World → World → Type 0
  Conversed xs u w = (W.sent w conn ≡ W.sent u conn ++ xs) × (L.is_open w conn.inner ≡ false)

  echo_ends :
      (xs : List ℕ) (n : ℕ) (u : World)
      → W.takes_all u conn ≡ true
      → W.incoming u conn ≡ xs
      → length xs < n
      → (w : World) × ((echo n conn 0 u >>= ended conn) ≡ ret (some (okay (length xs), w)))
        × Conversed xs u w
  unfolding ended
  echo_ends xs n u takes comes lt =
      let (w, ran, all_sent) = echo_returns xs n 0 u takes comes lt in
      let whole : 0 + length xs ≡ length xs = omega arith in
      (
        L.close conn.inner w,
        ap (λ o. o >>= ended conn) ran ∙ ap (λ k. ret (some (okay k, L.close conn.inner w))) whole,
        (
          W.sent-close w conn.inner conn ∙ all_sent,
          L.is_open-close conn.inner w conn.inner ∙ rw (same_fd_refl conn.inner),
        ),
      )

  -- Let the address be bound, the listener yield a connection, and the drop of the listener not
  -- panic; let the peer take what is sent, send some bytes without errors and then close the
  -- connection. Then the echo task of tcp_serv.rs ends, given more fuel than there are bytes: it
  -- has sent exactly these bytes back, in their order, returns their number, and has closed the
  -- connection.
  pub serve_returns :
      (xs : List ℕ) (n : ℕ) (addrs : IoResult (List SocketAddr)) (listener : TcpListener)
      (w w1 w2 u : World)
      → bind addrs w ≡ ret (okay listener, w1)
      → W.accept listener w1 ≡ (some (okay conn), w2)
      → W.drop_listener listener w2 ≡ ret u
      → W.takes_all u conn ≡ true
      → W.incoming u conn ≡ xs
      → length xs < n
      → (w' : World) × (serve n addrs w ≡ ret (some (okay (length xs), w'))) × Conversed xs u w'
  unfolding serve
  serve_returns xs n addrs listener w w1 w2 u bound came dropped takes comes lt =
      let (w', ran, done) = echo_ends xs n u takes comes lt in
      (w', rw (bound, came, dropped) ran, done)

  -- The same of the client, once it is connected.
  pub converse_returns :
      (xs : List ℕ) (n : ℕ) (addrs : IoResult (List SocketAddr)) (w u : World)
      → W.connect addrs w ≡ (okay conn, u)
      → W.takes_all u conn ≡ true
      → W.incoming u conn ≡ xs
      → length xs < n
      → (w' : World) × (converse n addrs w ≡ ret (some (okay (length xs), w'))) × Conversed xs u w'
  unfolding converse
  converse_returns xs n addrs w u connected takes comes lt =
      let (w', ran, done) = echo_ends xs n u takes comes lt in (w', rw connected ran, done)
