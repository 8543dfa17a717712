-- ===== src/Task/Reacting.antt =====
-- About `Reactor::react` of src/reactor/mod.rs: its loop over the completions.
use mathlib.Core.Option
use mathlib.Core.Path.{fun_ext}
use trale.Prelude.{
  ℕ, zero, suc, ◌<◌, ◌≡◌, refl, ap, ◌∙◌, Option, none, some, List, [], ◌∷◌, Outcome, ret, panic,
  Panic, ◌>>=◌, unwrap, arith, OnRet, OnRet-bind, OnRet-eq, OnRet-each, Outcome-cases, Ends-bind,
  subst, inl, inr, Option-cases,
}
use trale.Slab.{SlabApi, remove}
use trale.RingBuffer.{BufferApi}
use trale.Uring.{UringApi, Cqe}
use trale.Reactor.Ring.Defs.{
  ReactorInner, IoKind, oneshot, multi, next, wait, complete, deliver, deliver_multi,
}
use trale.Reactor.Result.Oneshot.{set_result}
use trale.Reactor.System.Defs.{System, apply, Safely, IsKernelPanic}
use trale.Reactor.System.Invariant.{Inv}
use trale.Reactor.System.Completions.{next-Safely, wait-Safely}
use trale.Task.Defs.{TaskId, Executor, wake, wake_all}
use trale.Task.React.{wake_completed, woken, react, wakers, listed, react_all}

abbrev pub WithList : ⦃S : SlabApi⦄ → ⦃B : BufferApi⦄ → ⦃U : UringApi⦄ → Type 0
WithList = Option (List TaskId × ReactorInner TaskId)

module _ ⦃S : SlabApi⦄ ⦃B : BufferApi⦄ ⦃U : UringApi⦄ {F : Type 0} where
  abbrev pub all_woken : Executor F → WithList → Option (ReactorInner TaskId × Executor F)
  all_woken x o = Option.map (λ p. (p.1, wake_all x p.0)) o

  wake_first :
      (m : Outcome WithList) (x : Executor F) (a : TaskId)
      → (m >>= λ o. ret (all_woken (wake x a) o))
        ≡ ((m >>= λ o. ret (Option.map (λ p. (a ∷ p.0, p.1)) o)) >>= λ o. ret (all_woken x o))
  unfolding wake_all
  wake_first (ret none) x a = refl
  wake_first (ret (some p)) x a = refl
  wake_first (panic p) x a = refl

  wake_completed-step :
      (n : ℕ) (x : Executor F) (m : Outcome (Option TaskId × ReactorInner TaskId))
      → ((r : ReactorInner TaskId) (y : Executor F)
          → wake_completed n r y ≡ (wakers n r >>= λ o. ret (all_woken y o)))
      → (m >>= λ p. woken p.0 (λ y. wake_completed n p.1 y) p.1 x)
        ≡ ((m >>= λ p. listed p.0 (wakers n p.1) p.1) >>= λ o. ret (all_woken x o))
  unfolding wake_all
  wake_completed-step n x (ret (none, r)) ih = refl
  wake_completed-step n x (ret (some a, r)) ih = ih r (wake x a) ∙ wake_first (wakers n r) x a
  wake_completed-step n x (panic p) ih = refl

  wake_completed-wakers :
      (n : ℕ) (r : ReactorInner TaskId) (x : Executor F)
      → wake_completed n r x ≡ (wakers n r >>= λ o. ret (all_woken x o))
  unfolding wake_completed wakers
  wake_completed-wakers zero r x = refl
  wake_completed-wakers (suc n) r x =
      wake_completed-step n x (next r) (λ q y. wake_completed-wakers n q y)

  -- A react that wakes the wakers one by one, between the completions, does to the reactor and
  -- the executor what a react does that first takes all completions and then wakes their wakers
  -- in order; it panics where that panics, and needs the same fuel.
  react-wake_all :
      (n : ℕ) (r : ReactorInner TaskId) (x : Executor F)
      → react n r x ≡ (wait r >>= λ q. wakers n q >>= λ o. ret (all_woken x o))
  unfolding react
  react-wake_all n r x = ap (λ k. wait r >>= k) (fun_ext (λ q. wake_completed-wakers n q x))

module _ ⦃S : SlabApi⦄ ⦃B : BufferApi⦄ ⦃U : UringApi⦄ {T : Type 0} where
  deliver-uring :
      (k : IoKind) (r : ReactorInner T) (c : Cqe) (i : ℕ)
      → OnRet (λ q. q.uring ≡ r.uring) (deliver k r c i)
  unfolding deliver
  deliver-uring oneshot r c i =
      OnRet-each (λ q. q.uring ≡ r.uring) (set_result r.results.oneshot c.result i) _
        λ s. OnRet-each (λ q. q.uring ≡ r.uring) (remove r.pending c.user_data) _ (λ x. refl)
  deliver-uring multi r c i =
      OnRet-each (λ q. q.uring ≡ r.uring) (deliver_multi r.results c i) _ (λ s. refl)

  complete-uring : (r : ReactorInner T) (c : Cqe) → OnRet (λ x. x.1.uring ≡ r.uring) (complete r c)
  unfolding complete
  complete-uring r c =
      OnRet-each (λ x. x.1.uring ≡ r.uring) (unwrap Panic.vacant_key (S.get r.pending c.user_data))
        _
        λ io.
          OnRet-bind (λ q. q.uring ≡ r.uring) (λ x. x.1.uring ≡ r.uring)
            (deliver io.kind r c io.result_slab_idx) _
            (deliver-uring io.kind r c io.result_slab_idx) (λ q e. e)

  -- A round that finds a completion makes the queue shorter.
  abbrev pub Shorter : ReactorInner T → Option T × ReactorInner T → Type 0
  Shorter r x = (a : T) → x.0 ≡ some a → U.queued x.1.uring < U.queued r.uring

  next-Shorter : (r : ReactorInner T) → OnRet (Shorter r) (next r)
  unfolding next
  next-Shorter r = elim (Option-cases (U.next r.uring).0) [
    | inl empty ↦ rw empty (λ a h. absurd (cc))
    | inr (c, came) ↦ rw came (
        OnRet-bind (λ x. x.1.uring ≡ (U.next r.uring).1) (Shorter r)
          (complete (record r { uring = (U.next r.uring).1 }) c) _
          (complete-uring (record r { uring = (U.next r.uring).1 }) c)
          (λ x e a h. rw e (U.queued-next r.uring c came)))
  ]

module _ ⦃S : SlabApi⦄ ⦃B : BufferApi⦄ ⦃U : UringApi⦄ where
  -- The loop over the completions has come to its end, in a state that keeps the invariant.
  abbrev pub Drained : System TaskId → WithList → Type 0
  Drained s o =
      (ws : List TaskId) × (r : ReactorInner TaskId) × (o ≡ some (ws, r))
      × Inv (record s { ring = r })

  -- One round, by what `next` has returned.
  pub next-Inv :
      (s : System TaskId) (o : Option TaskId) (r : ReactorInner TaskId)
      → Inv s
      → next s.ring ≡ ret (o, r)
      → Inv (record s { ring = r })
  unfolding apply
  next-Inv s o r v e =
      subst (λ m. Safely (m >>= λ x. ret (record s { ring = x.1 })) Inv) e (next-Safely s v)

  next-panics : (s : System TaskId) (p : Panic) → Inv s → next s.ring ≡ panic p → IsKernelPanic p
  unfolding apply
  next-panics s p v e =
      subst (λ m. Safely (m >>= λ x. ret (record s { ring = x.1 })) Inv) e (next-Safely s v)

  -- In a state that keeps the reactor's invariant, the loop over the completions comes to its end
  -- with any fuel above the number of queued completions, in a state that keeps the invariant, or
  -- panics because the kernel refuses a call or the submission queue is full.
  pub wakers-Safely :
      (n : ℕ) (s : System TaskId)
      → Inv s
      → U.queued s.ring.uring < n
      → Safely (wakers n s.ring) (Drained s)
  unfolding wakers
  wakers-Safely zero s v lt = absurd (omega arith)
  wakers-Safely (suc n) s v lt = elim (Outcome-cases (next s.ring)) [
    | inl ((none, r), e) ↦ rw e ([], r, refl, next-Inv s none r v e)
    | inl ((some a, r), e) ↦ rw e (
        let shorter =
          OnRet-eq (Shorter s.ring) (next s.ring) (some a, r) (next-Shorter s.ring) e a refl in
        Ends-bind IsKernelPanic (Drained (record s { ring = r })) (Drained s) (wakers n r) _
          (wakers-Safely n (record s { ring = r }) (next-Inv s (some a) r v e)
            (omega (arith, shorter)))
          (λ o d. (a ∷ d.0, d.1, ap (Option.map (λ p. (a ∷ p.0, p.1))) d.2, d.3)))
    | inr (p, e) ↦ rw e (next-panics s p v e)
  ]

  pub wait-Inv :
      (s : System TaskId) → Inv s → Safely (wait s.ring) (λ r. Inv (record s { ring = r }))
  unfolding apply
  wait-Inv s v = elim (Outcome-cases (wait s.ring)) [
    | inl (r, e) ↦
        rw e (subst (λ m. Safely (m >>= λ q. ret (record s { ring = q })) Inv) e (wait-Safely s v))
    | inr (p, e) ↦
        rw e (subst (λ m. Safely (m >>= λ q. ret (record s { ring = q })) Inv) e (wait-Safely s v))
  ]

  pub react_all-Safely : (s : System TaskId) → Inv s → Safely (react_all s) (λ x. Inv x.1)
  unfolding react_all
  react_all-Safely s v =
      Ends-bind IsKernelPanic (λ r. Inv (record s { ring = r })) (λ x. Inv x.1) (wait s.ring) _
        (wait-Inv s v)
        λ r v'.
          Ends-bind IsKernelPanic (Drained (record s { ring = r })) (λ x. Inv x.1)
            (wakers (suc (U.queued r.uring)) r) _
            (wakers-Safely (suc (U.queued r.uring)) (record s { ring = r }) v' (omega arith))
            (λ o d. rw d.2 d.3)
