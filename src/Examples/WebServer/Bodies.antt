-- ===== src/Examples/WebServer/Bodies.antt =====
-- About `send_file` of examples/web_server.rs: the bytes of a response.
use mathlib.Core.List.{append_assoc, append-nil}
use trale.Prelude.{
  ℕ, zero, suc, ◌+◌, ◌-◌, ◌*◌, ◌^◌, ◌<◌, ◌≤◌, ◌≡◌, refl, sym, ap, subst, ◌∙◌, inl, inr, true, some,
  List, [], ◌∷◌, ◌++◌, List-cases, length, take, drop, replicate, take-all, drop-all, length-take,
  length-drop, drop-drop, drop-length-take, take-append-drop, le_cases, ret, arith, pos,
}
use trale.Libc.{LibcApi, World, seek_end, seek_set}
use trale.Reactor.Io.Value.{okay}
use trale.Futures.Files.{File, seek}
use trale.Futures.Tcp.Defs.{TcpStream}
use trale.Examples.WebServer.Response.{success, header}
use trale.Examples.WebServer.Api.{WebApi}
use trale.Examples.WebServer.Server.{filled, send_body, send_opened, send_response_hdr}

-- A whole number of buffers: the bytes and `k` zeros.
abbrev pub Fills : List ℕ → ℕ → Type 0
Fills bytes k = (q : ℕ) × (length bytes + k ≡ q * 4096) × (k < 4096)

Fills-rest :
    (xs : List ℕ) (k : ℕ)
    → 0 < length xs
    → Fills (drop 4096 xs) k
    → (k' : ℕ) × Fills xs k'
      × (filled 4096 (take 4096 xs) ++ (drop 4096 xs ++ replicate k 0) ≡ xs ++ replicate k' 0)
Fills-rest xs k ne (q, e, lt) = elim (le_cases 4096 (length xs)) [
  | inl whole ↦
      let none_missing : 4096 - length (take 4096 xs) ≡ 0 =
        omega (arith, length-take 4096 xs whole) in
      let full : filled 4096 (take 4096 xs) ≡ take 4096 xs ++ [] =
        ap (λ z. take 4096 xs ++ replicate z 0) none_missing in
      (
        k,
        (suc q, omega (arith, length-drop 4096 xs), lt),
        ap (λ ys. ys ++ (drop 4096 xs ++ replicate k 0)) (full ∙ append-nil (take 4096 xs))
            ∙ sym (append_assoc (take 4096 xs) (drop 4096 xs) (replicate k 0))
            ∙ ap (λ ys. ys ++ replicate k 0) (take-append-drop 4096 xs),
      )
  | inr short ↦
      let over : drop 4096 xs ≡ [] = drop-all 4096 xs (omega arith) in
      let k_zero : k ≡ 0 = omega (arith, ap length over) in
      (
        4096 - length xs,
        (1, omega arith, omega arith),
        ap (λ ys. filled 4096 (take 4096 xs) ++ (ys ++ replicate k 0)) over
            ∙ ap (λ z. filled 4096 (take 4096 xs) ++ replicate z 0) k_zero
            ∙ append-nil (filled 4096 (take 4096 xs))
            ∙ ap (filled 4096) (take-all 4096 xs (omega arith)),
      )
]

read_nothing : (xs : List ℕ) → take 4096 xs ≡ [] → xs ≡ []
read_nothing xs e = elim (le_cases 4096 (length xs)) [
  | inl whole ↦ absurd (omega (arith, length-take 4096 xs whole, ap length e))
  | inr short ↦ sym (take-all 4096 xs (omega arith)) ∙ e
]

length-read : (xs : List ℕ) (b : ℕ) (bs : List ℕ) → take 4096 xs ≡ b ∷ bs → 0 < length xs
length-read [] b bs e = absurd (cc)
length-read (x ∷ xs) b bs e = omega arith

-- A round that reads something uses up one unit of fuel.
fuel_left :
    (xs : List ℕ) (n : ℕ)
    → 0 < length xs
    → length xs + 4096 ≤ suc n * 4096
    → length xs - length (take 4096 xs) + 4096 ≤ n * 4096
fuel_left xs n some_left le = elim (le_cases 4096 (length xs)) [
  | inl whole ↦ omega (arith, length-take 4096 xs whole)
  | inr short ↦ omega (arith, ap length (take-all 4096 xs (omega arith)))
]

-- What a connection has sent after a round, and what the later rounds add to it.
round_bytes :
    (after before ys xs bs : List ℕ) (k : ℕ)
    → after ≡ before ++ filled 4096 bs
    → ys ≡ drop 4096 xs
    → take 4096 xs ≡ bs
    → after ++ (ys ++ replicate k 0)
      ≡ before ++ (filled 4096 (take 4096 xs) ++ (drop 4096 xs ++ replicate k 0))
round_bytes after before ys xs bs k grown rest some_read =
    ap (λ zs. zs ++ (ys ++ replicate k 0)) grown
    ∙ ap (λ zs. before ++ filled 4096 bs ++ (zs ++ replicate k 0)) rest
    ∙ append_assoc before (filled 4096 bs) (drop 4096 xs ++ replicate k 0)
    ∙ ap (λ zs. before ++ (filled 4096 zs ++ (drop 4096 xs ++ replicate k 0))) (sym some_read)

module _ ⦃L : LibcApi⦄ ⦃W : WebApi⦄ (s : TcpStream) (f : File) (bytes : List ℕ) where
  -- where the loop is, and what it leads to
  abbrev pub Sends : ℕ → World → ℕ → Type 0
  Sends n w p =
      (w' : World) × (k : ℕ) × (send_body n s f w ≡ ret (some (okay tt, w')))
      × Fills (drop p bytes) k
      × (W.sent w' s ≡ W.sent w s ++ (drop p bytes ++ replicate k 0))

  send_body-step :
      (n : ℕ) (w : World) (b m : ℕ) (bs : List ℕ)
      → let u = (W.read f 4096 w).1 in
        let v = (W.write s (filled 4096 (b ∷ bs)) u).1 in
        (W.read f 4096 w).0 ≡ okay (b ∷ bs)
        → (W.write s (filled 4096 (b ∷ bs)) u).0 ≡ okay m
        → send_body (suc n) s f w ≡ send_body n s f v
  unfolding send_body
  send_body-step n w b m bs got wrote = rw (got, wrote) refl

  send_body-stop :
      (n : ℕ) (w : World)
      → (W.read f 4096 w).0 ≡ okay []
      → send_body (suc n) s f w ≡ ret (some (okay tt, (W.read f 4096 w).1))
  unfolding send_body
  send_body-stop n w got = rw got refl

  -- The rounds, by what the read gives; `later` is about the rounds that follow.
  module _ (n : ℕ) (w : World) (p : ℕ) (at' : W.file_at w f ≡ some (bytes, p))
      (takes : W.takes_all w s ≡ true) where
    abbrev read_end : World
    read_end = (W.read f 4096 w).1

    send_last : take 4096 (drop p bytes) ≡ [] → Sends (suc n) w p
    send_last at_end =
        let (got, moved, same) = W.read_file w f 4096 bytes p at' in
        let over = read_nothing (drop p bytes) at_end in
        (
          read_end,
          0,
          send_body-stop n w (got ∙ ap okay at_end),
          (0, omega (arith, ap length over), omega arith),
          (same s).0
              ∙ sym (append-nil (W.sent w s))
              ∙ ap (λ ys. W.sent w s ++ (ys ++ [])) (sym over),
        )

    send_more :
        (b : ℕ) (bs : List ℕ)
        → take 4096 (drop p bytes) ≡ b ∷ bs
        → length bytes - p + 4096 ≤ suc n * 4096
        → ((v : World) (q : ℕ)
            → W.file_at v f ≡ some (bytes, q)
            → W.takes_all v s ≡ true
            → length bytes - q + 4096 ≤ n * 4096
            → Sends n v q)
        → Sends (suc n) w p
    send_more b bs some_read fuel later =
        let (got, moved, same) = W.read_file w f 4096 bytes p at' in
        let xs = drop p bytes in
        let q = p + length (take 4096 xs) in
        let buf = filled 4096 (b ∷ bs) in
        let (kept, taking) = same s in
        let (wrote, grown, taking', others, unread) = W.write_all read_end s buf (taking ∙ takes) in
        let left = length-read xs b bs some_read in
        let rest : drop q bytes ≡ drop 4096 xs =
          sym (drop-drop p (length (take 4096 xs)) bytes) ∙ drop-length-take 4096 xs in
        let enough = fuel_left xs n left (omega (arith, length-drop p bytes)) in
        let (w', k, ran, whole, bytes_sent) =
          later (W.write s buf read_end).1 q (others f ∙ moved) taking'
            (omega (arith, length-drop p bytes, enough)) in
        let (k', whole', joined) = Fills-rest xs k left (subst (λ ys. Fills ys k) rest whole) in
        (
          w',
          k',
          send_body-step n w b (length buf) bs (got ∙ ap okay some_read) wrote ∙ ran,
          whole',
          bytes_sent
              ∙ round_bytes (W.sent (W.write s buf read_end).1 s) (W.sent w s) (drop q bytes) xs
                  (b ∷ bs) k (grown ∙ ap (λ ys. ys ++ buf) kept) rest some_read
              ∙ ap (λ ys. W.sent w s ++ ys) joined,
        )

  send_body-Sends :
      (n : ℕ) (w : World) (p : ℕ)
      → W.file_at w f ≡ some (bytes, p)
      → W.takes_all w s ≡ true
      → length bytes - p + 4096 ≤ n * 4096
      → Sends n w p
  send_body-Sends zero w p at' takes fuel = absurd (omega arith)
  send_body-Sends (suc n) w p at' takes fuel = elim (List-cases (take 4096 (drop p bytes))) [
    | inl at_end ↦ send_last n w p at' takes at_end
    | inr (b, bs, some_read) ↦
        send_more n w p at' takes b bs some_read fuel (λ v q. send_body-Sends n v q)
  ]

  -- Sending an open regular file to a peer that takes everything ends, given enough fuel for the
  -- file's buffers and one more; it sends the header with the file's length as Content-Length, then
  -- the file's bytes, and then zeros up to a whole number of buffers of 4096 bytes.
  pub send_opened-sends :
      (n : ℕ) (w : World) (p : ℕ)
      → W.file_at w f ≡ some (bytes, p)
      → W.takes_all w s ≡ true
      → length bytes < 2 ^ 63
      → length bytes + 4096 ≤ n * 4096
      → (w' : World) × (k : ℕ) × (send_opened n s f w ≡ ret (some (okay tt, w')))
        × Fills bytes k
        × (W.sent w' s ≡ W.sent w s ++ (header success (length bytes) ++ (bytes ++ replicate k 0)))
  unfolding send_opened seek send_response_hdr
  send_opened-sends n w p at' takes small fuel =
      let (res, at_end, same) = W.lseek_at_end w f bytes p at' small in
      let w1 = (L.lseek f.inner (pos 0) seek_end w).1 in
      let (res', at_start, same') = W.lseek_at_start w1 f bytes (length bytes) at_end in
      let w2 = (L.lseek f.inner (pos 0) seek_set w1).1 in
      let (kept, taking) = same s in
      let (kept', taking') = same' s in
      let hdr = header success (length bytes) in
      let (wrote, grown, taking'', others, unread) =
        W.write_all w2 s hdr (taking' ∙ taking ∙ takes) in
      let w3 = (W.write s hdr w2).1 in
      let (w', k, ran, whole, bytes_sent) =
        send_body-Sends n w3 0 (others f ∙ at_start) taking'' (omega arith) in
      (
        w',
        k,
        rw (res, res', wrote) ran,
        whole,
        bytes_sent
            ∙ ap (λ ys. ys ++ (bytes ++ replicate k 0))
                (grown ∙ ap (λ ys. ys ++ hdr) (kept' ∙ kept))
            ∙ append_assoc (W.sent w s) hdr (bytes ++ replicate k 0),
      )
