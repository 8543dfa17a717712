-- ===== src/Futures/Tcp/Sockets.antt =====
-- About `TcpListener::bind` of src/futures/tcp.rs: the sockets that it opens and closes.
use trale.Prelude.{
  ◌≡◌, refl, ap, sym, ◌∙◌, inl, inr, Bool, true, false, Option, none, some, List, [], ◌∷◌,
  if◌then◌else◌, Bool-cases, Outcome, ret, ℤ, pos, same_fd, same_fd-eq, is_minus_one,
}
use trale.Libc.{LibcApi, World, af_inet, af_inet6}
use trale.Reactor.Io.Value.{IoResult, IoError, okay, fail}
use trale.Futures.SockAddr.{SocketAddr, from, is_ipv4}
use trale.Futures.Tcp.Defs.{TcpListener, mk_sock, listen_on, bind_to, bind_made, bind_from, bind}

module _ ⦃L : LibcApi⦄ where
  abbrev pub held : Option ℤ → ℤ → Bool → Bool
  held none j b = b
  held (some fd) j b = if same_fd fd j then true else b

  -- `w` is `w0` with the descriptor `o`, if any, opened in addition.
  abbrev pub Opens : World → Option ℤ → World → Type 0
  Opens w0 none w = (j : ℤ) → L.is_open w j ≡ L.is_open w0 j
  Opens w0 (some fd) w =
      (L.is_open w0 fd ≡ false)
      × ((j : ℤ) → L.is_open w j ≡ (if same_fd fd j then true else L.is_open w0 j))

  pub close-Opens : (w0 w : World) (fd : ℤ) → Opens w0 (some fd) w → Opens w0 none (L.close fd w)
  close-Opens w0 w fd (closed, opened) j = elim (Bool-cases (same_fd fd j)) [
    | inl same ↦
        rw (L.is_open-close fd w j, same)
          (sym (ap (L.is_open w0) (sym (same_fd-eq fd j same)) ∙ closed))
    | inr other ↦ rw (L.is_open-close fd w j, other, opened j, other)
  ]

  abbrev pub of_sock : IoResult ℤ → Option ℤ
  of_sock (okay fd) = some fd
  of_sock (fail e) = none

  pub mk_sock-Opens :
      (w0 w : World) (a : SocketAddr)
      → Opens w0 none w
      → Opens w0 (of_sock (mk_sock a w).0) (mk_sock a w).1
  unfolding mk_sock
  mk_sock-Opens w0 w a h = elim (L.socket_opens (if is_ipv4 a then af_inet else af_inet6) w) [
    | inl (failed, same) ↦ rw failed (λ j. same j ∙ h j)
    | inr (n, made, closed, opened) ↦ rw made (sym (h (pos n)) ∙ closed, λ j. rw (opened j, h j))
  ]

  abbrev pub of_listener : IoResult TcpListener → Option ℤ
  of_listener (okay l) = some l.inner
  of_listener (fail e) = none

  -- The call returns, with at most the listener's socket opened.
  abbrev pub Binds : World → Outcome (IoResult TcpListener × World) → Type 0
  Binds w0 o =
      (res : IoResult TcpListener) × (w : World) × (o ≡ ret (res, w)) × Opens w0 (of_listener res) w

  -- `bind` and `listen` open nothing.
  same-Opens :
      (w0 w w' : World) (o : Option ℤ)
      → ((j : ℤ) → L.is_open w' j ≡ L.is_open w j)
      → Opens w0 o w
      → Opens w0 o w'
  same-Opens w0 w w' none same h = λ j. same j ∙ h j
  same-Opens w0 w w' (some fd) same h = (h.0, λ j. same j ∙ h.1 j)

  listen_on-Binds :
      (next : IoError → World → Outcome (IoResult TcpListener × World))
      → (sock : ℤ) (w0 w : World) → Opens w0 (some sock) w
      → ((e : IoError) (u : World) → Opens w0 none u → Binds w0 (next e u))
      → Binds w0 (listen_on next sock w)
  unfolding listen_on
  listen_on-Binds next sock w0 w h k =
      let opened =
        same-Opens w0 w (L.listen sock 1024 w).1 (some sock) (L.is_open-listen sock 1024 w) h in
      elim (L.listen_value sock 1024 w) [
        | inl failed ↦ rw failed (k _ _ (close-Opens w0 _ sock opened))
        | inr listens ↦ rw listens (_, _, refl, opened)
      ]

  bind_to-Binds :
      (next : IoError → World → Outcome (IoResult TcpListener × World))
      → (a : SocketAddr) (sock : ℤ) (w0 w : World) → Opens w0 (some sock) w
      → ((e : IoError) (u : World) → Opens w0 none u → Binds w0 (next e u))
      → Binds w0 (bind_to next a sock w)
  unfolding bind_to
  bind_to-Binds next a sock w0 w h k =
      let caddr = from a in
      let opened =
        same-Opens w0 w (L.bind sock caddr.addr caddr.len w).1 (some sock)
          (L.is_open-bind sock caddr.addr caddr.len w) h in
      elim (Bool-cases (is_minus_one (L.bind sock caddr.addr caddr.len w).0)) [
        | inl failed ↦ rw failed (k _ _ (close-Opens w0 _ sock opened))
        | inr bound ↦ rw bound (listen_on-Binds next sock w0 _ opened k)
      ]

  bind_made-Binds :
      (next : IoError → World → Outcome (IoResult TcpListener × World))
      → (a : SocketAddr) (made : IoResult ℤ × World) (w0 : World) → Opens w0 (of_sock made.0) made.1
      → ((e : IoError) (u : World) → Opens w0 none u → Binds w0 (next e u))
      → Binds w0 (bind_made next a made)
  bind_made-Binds next a (okay sock, w) w0 h k = bind_to-Binds next a sock w0 w h k
  bind_made-Binds next a (fail e, w) w0 h k = (_, _, refl, h)

  pub bind_from-Binds :
      (addrs : List SocketAddr) (e : IoError) (w0 w : World)
      → Opens w0 none w
      → Binds w0 (bind_from addrs e w)
  unfolding bind_from
  bind_from-Binds [] e w0 w h = (_, _, refl, h)
  bind_from-Binds (a ∷ addrs) e w0 w h =
      bind_made-Binds _ a _ w0 (mk_sock-Opens w0 w a h) (λ e' u. bind_from-Binds addrs e' w0 u)

  -- bind returns on every list of addresses, without a panic; afterwards exactly the descriptors
  -- from before are open, and the socket of the listener if it returns one: every socket on which
  -- bind or listen failed is closed.
  pub bind-Opens :
      (addrs : IoResult (List SocketAddr)) (w : World)
      → (res : IoResult TcpListener) × (w' : World) × (bind addrs w ≡ ret (res, w'))
        × Opens w (of_listener res) w'
  unfolding bind
  bind-Opens (fail e) w = (_, _, refl, λ j. refl)
  bind-Opens (okay addrs) w = bind_from-Binds addrs _ w w (λ j. refl)
