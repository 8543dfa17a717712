-- ===== src/Reactor/System/Streams.antt =====
-- About src/reactor/uring/io/multishot.rs: streams, their values and their end.
use trale.Prelude.{
  ℕ, zero, suc, ◌≡◌, refl, ap, ◌∙◌, inl, inr, Bool, true, false, not, none, some, Option, List, [],
  ◌∷◌, ◌++◌, map, length, tail, head?, ltb, if◌then◌else◌, Bool-cases, Outcome, ret, panic, Panic,
  ◌>>=◌, arith, ℤ,
}
use trale.Slab.{SlabApi}
use trale.RingBuffer.{BufferApi, capacity}
use trale.Uring.{UringApi, Entry, Cqe}
use trale.Reactor.Result.Multishot.{MultishotResultState}
use trale.Reactor.Result.Multishot.Slots as MultishotSlots
use trale.Reactor.Ring.Defs.{ReactorInner, PendingIo, multi, next}
use trale.Reactor.Ring.Links.{flying_at-eq}
use trale.Reactor.Ring.Complete.{complete_more, complete_last, pushed}
use trale.Reactor.Io.Value.{Poll, pending, ready, IoResult, reactor_value_to_result}
use trale.Reactor.Io.Multishot
use trale.Reactor.Io.Multishot.{IoState, submitted, submit_or_get_result}
use trale.Reactor.System.Defs.{System, next_completion, drop_multishot, apply}
use trale.Reactor.System.Lanes.{multishot_lane, multishot_slots-eq-some}
use trale.Reactor.System.Invariant.{Inv}

-- What the ring buffer of a slot holds after one more value.
abbrev pub enqueue : List ℤ → ℤ → List ℤ
enqueue xs v = if ltb (length xs) capacity then xs ++ v ∷ [] else tail xs ++ v ∷ []

-- What a poll answers, by the waiting values and whether the stream has ended.
abbrev pub answer : List ℤ → Bool → Poll (Option (IoResult ℤ))
answer (x ∷ xs) fin = ready (some (reactor_value_to_result x))
answer [] true = ready none
answer [] false = pending

poll_of-answer :
    (xs : List ℤ) (fin : Bool)
    → Multishot.poll_of (MultishotSlots.answer fin (head? xs)) ≡ answer xs fin
unfolding Multishot.poll_of
poll_of-answer (x ∷ xs) fin = refl
poll_of-answer [] true = refl
poll_of-answer [] false = refl

module _ ⦃S : SlabApi⦄ ⦃B : BufferApi⦄ ⦃U : UringApi⦄ {T : Type 0} where
  -- Slot `i` of a stream holds the values `xs`, oldest first, and the stream has ended or not.
  abbrev pub Holds : ReactorInner T → ℕ → List ℤ → Bool → Type 0
  Holds r i xs fin =
      (e : MultishotResultState) × (S.get r.results.multishot i ≡ some e)
      × (B.to_vec e.results ≡ xs)
      × (e.finished ≡ fin)
      × (e.dropped ≡ false)

  -- One poll of a stream answers with the oldest waiting value and takes it; with none waiting it
  -- answers that the stream has ended, or that it is pending.
  pub poll-Holds :
      (r : ReactorInner T) (i u : ℕ) (xs : List ℤ) (fin : Bool) (f : Unit {0} → Entry × T)
      → Holds r i xs fin
      → (q : ReactorInner T) × (submit_or_get_result (submitted i u) f r
          ≡ ret (answer xs fin, submitted i u, q))
        × Holds q i (tail xs) fin
  unfolding submit_or_get_result
  poll-Holds r i u xs fin f (e, slot, values, ended, live) =
      let (st, eq, ch) = MultishotSlots.pop_result_lem r.results.multishot i e slot in
      (
        record r { results = record (r.results) { multishot = st } },
        rw eq (
            ap
              (λ p.
                ret
                  (p, submitted i u, record r { results = record (r.results) { multishot = st } }))
              (rw (B.dequeue_value e.results, values, ended) (poll_of-answer xs fin))),
        (
          record e { results = (B.dequeue e.results).1 },
          ground (arith, ch i),
          B.to_vec-dequeue e.results ∙ ap tail values,
          ended,
          live,
        ),
      )

  -- Polls of one handle, one after the other.
  unfoldable pub polls :
      ℕ
      → IoState
      → (Unit {0} → Entry × T)
      → ReactorInner T
      → Outcome (List (Poll (Option (IoResult ℤ))) × IoState × ReactorInner T)
  polls zero state f r = ret ([], state, r)
  polls (suc n) state f r = do
    (p, state', r') ← submit_or_get_result state f r
    (ps, state'', r'') ← polls n state' f r'
    ret (p ∷ ps, state'', r'')

  -- If the slot of a submitted multishot handle, which is not dropped, holds some values, then as
  -- many polls return exactly these values, in the order of their completions, and leave the slot
  -- with no value and its end mark unchanged.
  pub polls-Holds :
      (xs : List ℤ) (r : ReactorInner T) (i u : ℕ) (fin : Bool) (f : Unit {0} → Entry × T)
      → Holds r i xs fin
      → (q : ReactorInner T) × (polls (length xs) (submitted i u) f r
          ≡ ret (map (λ v. ready (some (reactor_value_to_result v))) xs, submitted i u, q))
        × Holds q i [] fin
  unfolding polls
  polls-Holds [] r i u fin f h = (r, refl, h)
  polls-Holds (x ∷ xs) r i u fin f h =
      let (q, eq, h') = poll-Holds r i u (x ∷ xs) fin f h in
      let (t, eq', h'') = polls-Holds xs q i u fin f h' in (t, rw (eq, eq'), h'')

  module _ (s : System T) (h i u : ℕ) (c : Cqe) (v : Inv s) (held : s.multishots h ≡ submitted i u)
      (flies : (multishot_lane s).flying c.user_data ≡ some i)
      (came : (U.next s.ring.uring).0 ≡ some c) where
    -- When the next completion is that of a submitted multishot handle whose stream has not
    -- ended, in a state that keeps the invariant, its value joins the end of the values that wait
    -- in the handle's slot (the oldest is lost if 1024 wait already), and the stream is marked as
    -- ended exactly when no more completions follow.
    pub next-Holds :
        (xs : List ℤ)
        → Holds s.ring i xs false
        → (t : System T) × (apply s next_completion ≡ ret t)
          × Holds t.ring i (enqueue xs c.result) (not c.more)
          × (t.multishots h ≡ submitted i u)
    unfolding apply next
    next-Holds xs (e, slot, values, ended, live) =
        let (io, found, many, idx) =
          flying_at-eq multi _ (S.get s.ring.pending c.user_data) flies in
        let here : S.get s.ring.results.multishot io.result_slab_idx ≡ some e = rw idx slot in
        let taken : ReactorInner T = record (s.ring) { uring = (U.next s.ring.uring).1 } in
        let joined : B.to_vec (B.push e.results c.result) ≡ enqueue xs c.result =
          rw (B.to_vec-push e.results c.result, values) in
        elim (Bool-cases c.more) [
          | inl more ↦
              let (q, eq, ch, kept, same, ring) = complete_more taken c io e found many here more in
              (
                record s { ring = q },
                rw (came, eq),
                (pushed e c.result, ground (arith, ch i, idx), joined, rw more ended, live),
                held,
              )
          | inr last ↦
              let (q, eq, ch, kept, same, ring) = complete_last taken c io e found many here last in
              (
                record s { ring = q },
                rw (came, eq),
                (
                  record (pushed e c.result) { finished = true },
                  ground (arith, ch i, idx),
                  joined,
                  rw last,
                  live,
                ),
                held,
              )
        ]

    -- When the next completion is the last one of a submitted multishot handle's operation, in a
    -- state that keeps the invariant, it is handled, and dropping the handle afterwards panics,
    -- since the cancellation finds no operation.
    pub next-drop_ended :
        c.more ≡ false
        → c.user_data ≡ u
        → (t : System T) × (apply s next_completion ≡ ret t)
          × (apply t (drop_multishot h) ≡ panic Panic.cancel_failed)
    unfolding apply next Multishot.drop
    next-drop_ended last same_op =
        let (d, a, waits) = v.multishots_kept.flying_slot c.user_data i flies in
        let (e, slot, f, g) = multishot_slots-eq-some (S.get s.ring.results.multishot i) a in
        let (io, found, many, idx) =
          flying_at-eq multi _ (S.get s.ring.pending c.user_data) flies in
        let here : S.get s.ring.results.multishot io.result_slab_idx ≡ some e = rw idx slot in
        let taken : ReactorInner T = record (s.ring) { uring = (U.next s.ring.uring).1 } in
        let (q, eq, ch, kept, same, ring) = complete_last taken c io e found many here last in
        let over : U.inflight q.uring u ≡ none =
          ground (arith, ring, U.inflight-next s.ring.uring c u came) in
        (record s { ring = q }, rw (came, eq), rw (held, U.sync_cancel_missing q.uring u over))

    -- When the next completion is the last one of a submitted multishot handle's operation, in a
    -- state that keeps the invariant, then after it is handled the operation is over, but its
    -- record, with its waker, is still in pending.
    pub next-leaks :
        c.more ≡ false
        → (t : System T) × (apply s next_completion ≡ ret t)
          × (U.inflight t.ring.uring c.user_data ≡ none)
          × ((io : PendingIo T) × (S.get t.ring.pending c.user_data ≡ some io))
    unfolding apply next
    next-leaks last =
        let (d, a, waits) = v.multishots_kept.flying_slot c.user_data i flies in
        let (e, slot, f, g) = multishot_slots-eq-some (S.get s.ring.results.multishot i) a in
        let (io, found, many, idx) =
          flying_at-eq multi _ (S.get s.ring.pending c.user_data) flies in
        let here : S.get s.ring.results.multishot io.result_slab_idx ≡ some e = rw idx slot in
        let taken : ReactorInner T = record (s.ring) { uring = (U.next s.ring.uring).1 } in
        let (q, eq, ch, kept, same, ring) = complete_last taken c io e found many here last in
        (
          record s { ring = q },
          rw (came, eq),
          ground (arith, ring, U.inflight-next s.ring.uring c c.user_data came),
          (io, rw kept found),
        )
