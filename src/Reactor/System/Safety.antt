-- ===== src/Reactor/System/Safety.antt =====
-- About src/reactor/: sequences of actions from the start.
use trale.Prelude.{
  ℕ, ◌≡◌, ◌≢◌, refl, subst, true, none, some, List, [], ◌∷◌, Outcome, Ends-bind, ret, ◌>>=◌,
}
use trale.Slab.{SlabApi}
use trale.RingBuffer.{BufferApi}
use trale.Uring.{UringApi}
use trale.Reactor.Result.{no_results}
use trale.Reactor.Ring.Defs.{PendingIo, IoKind, oneshot, multi}
use trale.Reactor.Lane.Keeps.{empty-Inv, quiet_slots}
use trale.Reactor.System.Defs.{
  System, Action, poll_oneshot, drop_oneshot, poll_multishot, drop_multishot, next_completion,
  wait_completion, IsFit, apply, boot, Safely, IsKernelPanic,
}
use trale.Reactor.System.Lanes.{oneshot_handle, multishot_handle, oneshot_free, multishot_free}
use trale.Reactor.System.Invariant.{Inv}
use trale.Reactor.System.OneshotSteps.{poll_oneshot-Safely, drop_oneshot-Safely}
use trale.Reactor.System.MultishotSteps.{poll_multishot-Safely, drop_multishot-Safely}
use trale.Reactor.System.Completions.{wait-Safely, next-Safely}

-- The actions all submit operations of their handle's kind.
abbrev pub AllFit :
    ⦃S : SlabApi⦄ → ⦃B : BufferApi⦄ → ⦃U : UringApi⦄ → {T : Type 0} → List (Action T) → Type 0
AllFit [] = Unit {0}
AllFit (a ∷ as') = IsFit a × AllFit as'

is_multi : (k : IoKind) → k ≢ oneshot → k ≡ multi
is_multi oneshot n = absurd (n refl)
is_multi multi n = refl

module _ ⦃S : SlabApi⦄ ⦃B : BufferApi⦄ ⦃U : UringApi⦄ {T : Type 0} where
  -- The actions in order, up to the first panic.
  unfoldable pub run : System T → List (Action T) → Outcome (System T)
  run s [] = ret s
  run s (a ∷ rest) = do t ← apply s a; run t rest

  pub boot-Inv : (s : System T) → s ≡ boot → Inv s
  unfolding boot
  boot-Inv s e = rw e (record {
    links = record {
      linked = λ u c p. absurd (cc (U.inflight-new u));
      registered = λ u io p one. absurd (cc (S.get-new {A = PendingIo T} u));
    };
    oneshots_kept = empty-Inv _ (λ u. rw (U.inflight-new u)) (λ i. rw (S.get-new i)) (λ h. refl);
    multishots_kept = empty-Inv _ (λ u. rw (U.inflight-new u)) (λ i. rw (S.get-new i)) (λ h. refl);
  })

  -- Every poll, drop, wait and completion keeps the invariant, and panics only when the kernel
  -- refuses a call or the submission queue is full.
  pub apply-Safely : (s : System T) (a : Action T) → Inv s → IsFit a → Safely (apply s a) Inv
  apply-Safely s (poll_oneshot h e obj) v fit = poll_oneshot-Safely s v h e obj fit
  apply-Safely s (drop_oneshot h) v fit = drop_oneshot-Safely s v h
  apply-Safely s (poll_multishot h e obj) v fit = poll_multishot-Safely s v h e obj fit
  apply-Safely s (drop_multishot h) v fit = drop_multishot-Safely s v h
  apply-Safely s next_completion v fit = next-Safely s v
  apply-Safely s wait_completion v fit = wait-Safely s v

  pub run-Safely :
      (s : System T) (as' : List (Action T)) → Inv s → AllFit as' → Safely (run s as') Inv
  unfolding run
  run-Safely s [] v fit = v
  run-Safely s (a ∷ rest) v fit =
      Ends-bind IsKernelPanic Inv Inv (apply s a) (λ t. run t rest) (apply-Safely s a v fit.0)
        (λ t w. run-Safely t rest w fit.1)

  -- From the start, any sequence of polls and drops of handles, waits and completions either ends
  -- in a state that keeps the reactor's invariant or panics because the submission queue is full
  -- or the kernel refuses a wait or a cancellation; no access to a slab by the reactor fails and
  -- no dropped result is asked for, provided that each handle submits operations of its kind.
  pub run-boot-Safely : (as' : List (Action T)) → AllFit as' → Safely (run boot as') Inv
  run-boot-Safely as' fit = run-Safely boot as' (boot-Inv boot refl) fit

  -- In every state that a sequence of polls, drops, waits and completions leads to from the
  -- start, if no operation is in flight and no handle is submitted, then both stores of results
  -- are empty: no result slot leaks.
  pub run-boot-no_results :
      (as' : List (Action T)) (s : System T)
      → AllFit as'
      → run boot as' ≡ ret s
      → ((u : ℕ) → U.inflight s.ring.uring u ≡ none)
      → ((h : ℕ) → oneshot_handle (s.oneshots h) ≡ none)
      → ((h : ℕ) → multishot_handle (s.multishots h) ≡ none)
      → no_results s.ring.results ≡ true
  unfolding no_results
  run-boot-no_results as' s fit ran idle ones multis =
      let v : Inv s = subst (λ o. Safely o Inv) ran (run-boot-Safely as' fit) in
      let one : S.len s.ring.results.oneshot ≡ 0 =
        S.len_of_get s.ring.results.oneshot
          λ i. oneshot_free _ (quiet_slots _ v.oneshots_kept (λ u. rw (idle u)) ones i) in
      let many : S.len s.ring.results.multishot ≡ 0 =
        S.len_of_get s.ring.results.multishot
          λ i. multishot_free _ (quiet_slots _ v.multishots_kept (λ u. rw (idle u)) multis i) in
      rw (one, many)

  -- In every state that a sequence of polls, drops, waits and completions leads to from the
  -- start, if no operation is in flight, then every record that is left in pending is that of a
  -- multishot operation: no waker of a oneshot operation leaks, whether its future was dropped or
  -- not.
  pub run-boot-pending :
      (as' : List (Action T)) (s : System T)
      → AllFit as'
      → run boot as' ≡ ret s
      → ((u : ℕ) → U.inflight s.ring.uring u ≡ none)
      → (u : ℕ) (io : PendingIo T) → S.get s.ring.pending u ≡ some io
      → io.kind ≡ multi
  run-boot-pending as' s fit ran idle u io h =
      let v : Inv s = subst (λ o. Safely o Inv) ran (run-boot-Safely as' fit) in
      is_multi io.kind λ one. absurd (cc (v.links.registered u io h one, idle u))
