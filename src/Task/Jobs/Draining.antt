-- ===== src/Task/Jobs/Draining.antt =====
-- `Reactor::react` under the executor: the loop over the completions ends, and queues a task.
use trale.Prelude.{
  ℕ, zero, suc, ◌+◌, ◌≤◌, ◌<◌, ◌≡◌, ◌≢◌, refl, ap, subst, ◌∙◌, inl, inr, none, some, Option-cases,
  List, [], ◌∷◌, ret, arith, length, List-cases,
}
use trale.Slab.{SlabApi}
use trale.RingBuffer.{BufferApi}
use trale.Uring.{UringApi, Ring, Cqe, single_shot, OpClass}
use trale.Reactor.Result.Oneshot.{pending}
use trale.Reactor.Ring.Defs.{ReactorInner, oneshot, next, wait}
use trale.Reactor.Ring.Complete.{complete_oneshot}
use trale.Reactor.System.Defs.{System, Safely}
use trale.Reactor.System.Lanes.{oneshot_slot}
use trale.Reactor.Ring.Links.{flying_at-eq}
use trale.Reactor.System.Invariant as System
use trale.Task.Defs.{Task, TaskId, Executor, wake, wake_all}
use trale.Task.Wakes.{wake_hit, live-wake_all, live}
use trale.Task.React.{wakers, react_all}
use trale.Task.Reacting.{next-Inv, wait-Inv}
use trale.Task.Jobs.Defs.{Job, World, react}
use trale.Task.Jobs.Fair.{Fair}
use trale.Task.Jobs.Following.{wake_all-Follows}
use trale.Task.Jobs.Wakings.{kernel-Fair, woken-Fair, here}
use trale.Task.Jobs.Turns.{Good, work}

module _ ⦃S : SlabApi⦄ ⦃B : BufferApi⦄ ⦃U : UringApi⦄ (m n : ℕ) (polls : TaskId → ℕ) where
  -- One completion is taken, and its task is woken.
  pub record Wakened (s : System TaskId) (x : Executor Job) (a : TaskId) (r : ReactorInner TaskId)
      : Type 0 where
    pub fair : Fair m n (record s { ring = r }) polls (wake x a)
    pub shorter : U.queued r.uring < U.queued s.ring.uring
    pub room : U.room r.uring ≡ U.room s.ring.uring
    pub queued : length (wake x a).run_q ≡ suc (length x.run_q)

  next-Wakened :
      (s : System TaskId) (x : Executor Job) (c : Cqe)
      → Fair m n s polls x
      → (U.next s.ring.uring).0 ≡ some c
      → (a : TaskId) × (r : ReactorInner TaskId) × (next s.ring ≡ ret (some a, r)) × Wakened s x a r
  unfolding next
  next-Wakened s x c v came =
      let (k, flew) = U.next_inflight s.ring.uring c came in
      let (io, found, class) = v.system.links.linked c.user_data k flew in
      let (task, waiting, named, held, one) = v.recorded c.user_data io found in
      let taken : ReactorInner TaskId = record (s.ring) { uring = (U.next s.ring.uring).1 } in
      let slot = here m n s polls x v c came io found task waiting named held one in
      let (q, eq, set, gone, same, ring) = complete_oneshot taken c io pending found one slot in
      let done : next s.ring ≡ ret (some io.assoc_obj, q) = rw (came, eq) refl in
      let inv = next-Inv s (some io.assoc_obj) q v.system done in
      (
        io.assoc_obj,
        q,
        done,
        record {
          fair =
              woken-Fair m n s polls x v c came io found task waiting named held one q inv set gone
                same;
          shorter = rw ring (U.queued-next s.ring.uring c came);
          room = ap U.room ring ∙ U.room-next s.ring.uring;
          queued = ap length (wake_hit x io.assoc_obj task waiting).0;
        },
      )

  abbrev Drains : ℕ → System TaskId → Executor Job → Type 0
  Drains k s x =
      (ws : List TaskId) × (r : ReactorInner TaskId) × (wakers k s.ring ≡ ret (some (ws, r)))
      × Fair m n (record s { ring = r }) polls (wake_all x ws)
      × (U.room r.uring ≡ U.room s.ring.uring)
      × (length (wake_all x ws).run_q ≡ length x.run_q + length ws)
      × ((c : Cqe) → (U.next s.ring.uring).0 ≡ some c → ws ≢ [])

  wakers-Drains :
      (k : ℕ) (s : System TaskId) (x : Executor Job)
      → Fair m n s polls x
      → U.queued s.ring.uring < k
      → Drains k s x
  unfolding wakers wake_all next
  wakers-Drains zero s x v lt = absurd (omega arith)
  wakers-Drains (suc k) s x v lt = elim (Option-cases (U.next s.ring.uring).0) [
    | inl empty ↦
        let r : ReactorInner TaskId = record (s.ring) { uring = (U.next s.ring.uring).1 } in
        let done : next s.ring ≡ ret (none, r) = rw empty refl in
        (
          [],
          r,
          rw empty refl,
          kernel-Fair m n s polls x v (U.next s.ring.uring).1 (next-Inv s none r v.system done),
          U.room-next s.ring.uring,
          omega arith,
          λ c came e. absurd (cc),
        )
    | inr (c, came) ↦
        let (a, r, eq, wk) = next-Wakened s x c v came in
        let (ws, r', eq', fair, room, len, some_waker) =
          wakers-Drains k (record s { ring = r }) (wake x a) wk.fair (omega (arith, wk.shorter)) in
        (
          a ∷ ws,
          r',
          rw (eq, eq') refl,
          fair,
          room ∙ wk.room,
          omega (arith, len, wk.queued),
          λ c came e. absurd (cc),
        )
  ]

-- A wait returns if any operation is in flight: io_uring_enter(2) returns when a completion is
-- there, and the operations end.
abbrev pub Serves : ⦃U : UringApi⦄ → Type 0
Serves ⦃U⦄ =
    (r : Ring) (u : ℕ) (k : OpClass)
    → U.inflight r u ≡ some k
    → (q : Ring) × (U.submit_and_wait r ≡ some q)

module _ ⦃S : SlabApi⦄ ⦃B : BufferApi⦄ ⦃U : UringApi⦄ (m n : ℕ) (serves : Serves) (x : Executor Job)
    (w : World) (idle : x.run_q ≡ []) (some_live : live x ≢ 0) (jobs : TaskId → Job)
    (good : Good m n jobs x w) where
  -- A task that waits has an operation in flight.
  waiting_flies :
      (k : ℕ) (task : Task Job)
      → S.get x.waiting k ≡ some task
      → (u : ℕ) × (U.inflight w.system.ring.uring u ≡ some single_shot)
  waiting_flies k task g =
      let a = good.fair.waits k task g in
      let v = good.fair.system in
      let (u, flies) = v.oneshots_kept.slot_flying a.idx (oneshot_slot pending) (rw a.slot) refl in
      let (io, found, one, same) =
        flying_at-eq oneshot (U.inflight w.system.ring.uring u) (S.get w.system.ring.pending u)
          flies in
      (u, v.links.registered u io found one)

  wait_returns : (g : Ring) × (U.submit_and_wait w.system.ring.uring ≡ some g)
  wait_returns = elim (Option-cases (U.submit_and_wait w.system.ring.uring)) [
    | inr (g, e) ↦ (g, e)
    | inl stuck ↦
        let none_waiting : S.len x.waiting ≡ 0 = S.len_of_get x.waiting λ k.
          elim (Option-cases (S.get x.waiting k)) [
            | inl e ↦ e
            | inr (task, e) ↦
                let (u, flew) = waiting_flies k task e in
                let (q, served) = serves w.system.ring.uring u single_shot flew in absurd (cc)
          ] in
        absurd (some_live (omega (arith, none_waiting, ap length idle)))
  ]

  -- The reactor returns wakers, and one of them queues a task.
  pub progress :
      (ws : List TaskId) × (w' : World) × (react w ≡ ret (ws, w'))
      × Good m n jobs (wake_all x ws) w'
      × (work m n w' ≤ work m n w)
      × ((wake_all x ws).run_q ≢ [])
  unfolding react react_all wait
  progress =
      let (g, waited) = wait_returns in
      let s = w.system in
      let r : ReactorInner TaskId = record (s.ring) { uring = g } in
      let done : wait s.ring ≡ ret r = rw waited refl in
      let inv : System.Inv (record s { ring = r }) =
        subst (λ o. Safely o (λ r. System.Inv (record s { ring = r }))) done
          (wait-Inv s good.fair.system) in
      let fair = kernel-Fair m n s w.polls x good.fair g inv in
      let (c, came) = U.submit_and_wait_ready s.ring.uring g waited in
      let (ws, q, eq, fair', room, len, some_waker) =
        wakers-Drains m n w.polls (suc (U.queued g)) (record s { ring = r }) x fair (omega arith) in
      (
        ws,
        record w { system = record s { ring = q } },
        rw (waited, eq) refl,
        record {
          fair = fair';
          follow = wake_all-Follows jobs n w.answers x ws good.follow;
          space = omega (
            arith,
            room,
            U.room-submit_and_wait s.ring.uring g waited,
            live-wake_all x ws,
            good.few,
          );
          few = omega (arith, live-wake_all x ws, good.few);
          calm = good.calm;
          bounded = good.bounded;
        },
        omega arith,
        λ e. elim (List-cases ws) [
          | inl nil ↦ some_waker c came nil
          | inr (a, rest, e') ↦ absurd (omega (arith, len, ap length e, ap length e'))
        ],
      )
