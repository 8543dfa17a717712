-- ===== src/Futures/Exclusion/Safety.antt =====
-- About src/futures/mutex.rs: guards, and the token of a dropped attempt.
use trale.Prelude.{
  subst, ℕ, ◌≡◌, ◌⊎◌, inl, inr, true, false, some, ret, arith, eq_cases, Bool-cases, ap, ◌∙◌,
}
use trale.Slab.{SlabApi}
use trale.RingBuffer.{BufferApi}
use trale.Uring.{UringApi}
use trale.Libc.{LibcApi, World}
use trale.Reactor.Ring.Defs.{ReactorInner}
use trale.Reactor.Io.Value.{Poll}
use trale.Futures.Locks.{Mutex, Lock, LockGuard, unstarted, waiting, returned, poll_lock}
use trale.Futures.Tokens.{Made, new-Counts}
use trale.Reactor.Io.Value.{okay}
use trale.Futures.Locks.{new}
use trale.Futures.Exclusion.Defs.{
  Shared, Step, poll, complete, release, abandon, other, Reach, here, next, start,
}
use trale.Futures.Exclusion.Invariant.{start-Inv, Reach-Inv}

-- The token is with an attempt whose future is gone.
abbrev pub IsStranded : ⦃L : LibcApi⦄ → Shared → ℕ → Type 0
IsStranded s j = (s.drawn j ≡ true) × (s.lock j ≡ returned)

new_count :
    ⦃L : LibcApi⦄
    → {A : Type 0} (m : Mutex A) (e : ℕ) (obj : A) (w0 w : World) → new obj w0 ≡ (okay m, w)
    → L.event_of w m.evt.inner ≡ some e
    → L.count w e ≡ 1
new_count ⦃L⦄ m e obj w0 w made is =
    let (e', is', one) = subst Made made (new-Counts obj w0) in
    let same : e' ≡ e = cc in subst (λ i. L.count w i ≡ 1) same one

module _ ⦃L : LibcApi⦄ ⦃S : SlabApi⦄ ⦃B : BufferApi⦄ ⦃U : UringApi⦄ {T A : Type 0} (m : Mutex A)
    (e : ℕ) where
  pub mutual_exclusion :
      (obj : A) (w0 w : World) {s : Shared}
      → new obj w0 ≡ (okay m, w)
      → L.event_of w m.evt.inner ≡ some e
      → Reach T m e (start w) s
      → (i j : ℕ) → s.guarded i ≡ true
      → s.guarded j ≡ true
      → i ≡ j
  mutual_exclusion obj w0 w {s} made is r i j held_i held_j =
      let one = new_count m e obj w0 w made is in
      let v = Reach-Inv T m e r (start-Inv m.evt e w is one) in
      v.single.unique i j (ground arith) (ground arith)

  -- An attempt that is over is not polled.
  poll_lock-over :
      (l : Lock) (ptr : ℕ) (waker : T) (r r' : ReactorInner T) (w w' : World) (p : Poll LockGuard)
      (l' : Lock)
      → l ≡ returned
      → poll_lock m ptr l waker r w ≡ ret (p, l', r', w')
      → ⊥
  unfolding poll_lock
  poll_lock-over unstarted ptr waker r r' w w' p l' h e = cc
  poll_lock-over (waiting evt waiter) ptr waker r r' w w' p l' h e = cc
  poll_lock-over returned ptr waker r r' w w' p l' h e = cc

  Step-IsStranded : {s t : Shared} → Step T m e s t → (j : ℕ) → IsStranded s j → IsStranded t j
  Step-IsStranded (poll s k ptr waker r r' p l w polled told) j (gone, over) = elim (eq_cases k j) [
    | inl same ↦
        absurd
          (poll_lock-over (s.lock k) ptr waker r r' s.world w p l (ap s.lock same ∙ over) polled)
    | inr apart ↦ (ground arith, ground arith)
  ]
  Step-IsStranded (complete s k w flies takes) j (gone, over) = (ground arith, over)
  Step-IsStranded (release s k w held dropped) j (gone, over) = (gone, over)
  Step-IsStranded (abandon s k evt waiter held) j (gone, over) = (gone, ground arith)
  Step-IsStranded (other s w spares) j (gone, over) = (gone, over)

  Reach-IsStranded : {s t : Shared} → Reach T m e s t → (j : ℕ) → IsStranded s j → IsStranded t j
  Reach-IsStranded here j h = h
  Reach-IsStranded (next r st) j h = Step-IsStranded st j (Reach-IsStranded r j h)

  pub stranded-no_guard :
      (obj : A) (w0 w : World) {s t : Shared}
      → new obj w0 ≡ (okay m, w)
      → L.event_of w m.evt.inner ≡ some e
      → Reach T m e (start w) s
      → (j : ℕ) → IsStranded s j
      → Reach T m e s t
      → (i : ℕ) → t.guarded i ≡ false
  stranded-no_guard obj w0 w {s} {t} made is r j lost q i =
      let one = new_count m e obj w0 w made is in
      let v = Reach-Inv T m e q (Reach-Inv T m e r (start-Inv m.evt e w is one)) in
      let (gone, over) = Reach-IsStranded q j lost in
      elim (Bool-cases (t.guarded i)) [
        | inl held ↦ ground (arith, v.single.unique i j, v.single.one_way j)
        | inr free ↦ free
      ]

  pub lock_available :
      (w : World) {s : Shared}
      → L.event_of w m.evt.inner ≡ some e
      → L.count w e ≡ 1
      → Reach T m e (start w) s
      → ((j : ℕ) → s.guarded j ≡ false)
      → (L.count s.world e ≡ 1) ⊎ ((j : ℕ) × (s.drawn j ≡ true))
  lock_available w {s} is one r free =
      let v = Reach-Inv T m e r (start-Inv m.evt e w is one) in
      elim v.single.somewhere [
        | inl there ↦ inl there
        | inr (j, o) ↦ inr (j, ground (arith, free j))
      ]
