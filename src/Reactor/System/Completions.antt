-- ===== src/Reactor/System/Completions.antt =====
-- Completions: `wait`, and `next` with the completion that it takes.
use trale.Prelude.{
  ℕ, ◌≡◌, refl, sym, ap, ◌∙◌, inl, inr, true, false, Bool-cases, none, some, Option-cases, ◌==◌,
  if◌then◌else◌, Panic, arith,
}
use trale.Slab.{SlabApi, Changes}
use trale.RingBuffer.{BufferApi}
use trale.Uring.{UringApi, Ring, Cqe, single_shot, multi_shot}
use trale.Reactor.Result.Oneshot.{ResultState}
use trale.Reactor.Result.Oneshot.Slots as OneshotSlots
use trale.Reactor.Result.Multishot.{MultishotResultState}
use trale.Reactor.Result.Multishot.Slots as MultishotSlots
use trale.Reactor.Ring.Defs.{ReactorInner, PendingIo, IoKind, oneshot, multi, next, wait}
use trale.Reactor.Ring.Links.{class_of}
use trale.Reactor.Ring.Complete.{complete_oneshot, complete_more, complete_last, pushed}
use trale.Reactor.Lane.{stay, finish}
use trale.Reactor.System.Defs.{System, next_completion, wait_completion, apply, Safely}
use trale.Reactor.System.Lanes.{oneshot_slot, oneshot_slots-eq-some, multishot_slots-eq-some}
use trale.Reactor.System.Invariant.{Inv, Steps, Steps-Inv, Safely_ret, Safely_panic}

module _ ⦃S : SlabApi⦄ ⦃B : BufferApi⦄ ⦃U : UringApi⦄ {T : Type 0} (s : System T) (v : Inv s) where
  open v use {links, oneshots_kept, multishots_kept}

  -- The kernel's state changes, and what is in flight does not.
  kernel_Steps :
      (ring : Ring)
      → ((j : ℕ) → U.inflight ring j ≡ U.inflight s.ring.uring j)
      → Steps s (record s { ring = record (s.ring) { uring = ring } })
  kernel_Steps ring same = record {
    links = record {
      linked = λ w c p. links.linked w c (sym (same w) ∙ p);
      registered = λ w io p one. same w ∙ links.registered w io p one;
    };
    oneshot_move = stay (λ j. rw (same j)) (λ j. refl) (λ j. refl);
    multishot_move = stay (λ j. rw (same j)) (λ j. refl) (λ j. refl);
  }

  pub wait-Safely : Safely (apply s wait_completion) Inv
  unfolding apply wait
  wait-Safely = elim (Option-cases (U.submit_and_wait s.ring.uring)) [
    | inl failed ↦ Safely_panic {p = Panic.submit_failed} Inv (rw failed) tt
    | inr (ring, eq) ↦
        Safely_ret Inv (rw eq)
          (Steps-Inv (kernel_Steps ring (λ j. U.inflight-submit_and_wait s.ring.uring ring j eq)) v)
  ]

  module _ (c : Cqe) (came : (U.next s.ring.uring).0 ≡ some c) where
    -- the ring with the completion taken from the queue
    abbrev taken : ReactorInner T
    taken = record (s.ring) { uring = (U.next s.ring.uring).1 }

    module _ (io : PendingIo T) (found : S.get s.ring.pending c.user_data ≡ some io) where
      oneshot_Steps :
          (e : ResultState) (q : ReactorInner T)
          → io.kind ≡ oneshot
          → U.inflight s.ring.uring c.user_data ≡ some single_shot
          → S.get s.ring.results.oneshot io.result_slab_idx ≡ some e
          → (oneshot_slot e).is_done ≡ false
          → Changes s.ring.results.oneshot io.result_slab_idx
              (OneshotSlots.completed c.result e)
              q.results.oneshot
          → Changes s.ring.pending c.user_data none q.pending
          → q.results.multishot ≡ s.ring.results.multishot
          → q.uring ≡ taken.uring
          → Steps s (record s { ring = q })
      oneshot_Steps e q one flew slot open_slot ch gone same ring =
          let last : c.more ≡ false = U.next_single s.ring.uring c came flew in
          let flight : (j : ℕ)
              → U.inflight q.uring j
                ≡ (if c.user_data == j then none else U.inflight s.ring.uring j) =
            λ j. ground (arith, ring, U.inflight-next s.ring.uring c j came) in
          record {
            links = record {
              linked = λ w k p.
                  let (io', a, b) = links.linked w k (ground (arith, flight w)) in
                  (io', ground (arith, flight w, gone w), b);
              registered = λ w io' p one'. ground (arith, flight w, gone w, links.registered w io');
            };
            oneshot_move =
                finish c.user_data io.result_slab_idx (oneshot_slot e) (rw (flew, found, one))
                  (rw slot) (λ j. ground (arith, flight j, gone j)) (λ j. ground (arith, ch j))
                  (λ j. refl);
            multishot_move =
                stay (λ j. ground (arith, flight j, gone j)) (λ j. rw same) (λ j. refl);
          }

      more_Steps :
          (e : MultishotResultState) (q : ReactorInner T)
          → c.more ≡ true
          → S.get s.ring.results.multishot io.result_slab_idx ≡ some e
          → Changes s.ring.results.multishot io.result_slab_idx
              (some (pushed e c.result))
              q.results.multishot
          → q.pending ≡ s.ring.pending
          → q.results.oneshot ≡ s.ring.results.oneshot
          → q.uring ≡ taken.uring
          → Steps s (record s { ring = q })
      more_Steps e q more slot ch kept same ring =
          let flight : (j : ℕ) → U.inflight q.uring j ≡ U.inflight s.ring.uring j =
            λ j. ground (arith, ring, U.inflight-next s.ring.uring c j came) in
          record {
            links = record {
              linked = λ w k p. rw kept (links.linked w k (sym (flight w) ∙ p));
              registered = λ w io' p one'. ground (arith, kept, flight w, links.registered w io');
            };
            oneshot_move = stay (λ j. rw (flight j, kept)) (λ j. rw same) (λ j. refl);
            multishot_move =
                stay (λ j. rw (flight j, kept)) (λ j. ground (arith, ch j)) (λ j. refl);
          }

      last_Steps :
          (e : MultishotResultState) (q : ReactorInner T)
          → io.kind ≡ multi
          → U.inflight s.ring.uring c.user_data ≡ some multi_shot
          → c.more ≡ false
          → S.get s.ring.results.multishot io.result_slab_idx ≡ some e
          → Changes s.ring.results.multishot io.result_slab_idx
              (MultishotSlots.completed (pushed e c.result))
              q.results.multishot
          → q.pending ≡ s.ring.pending
          → q.results.oneshot ≡ s.ring.results.oneshot
          → q.uring ≡ taken.uring
          → Steps s (record s { ring = q })
      last_Steps e q many flew last slot ch kept same ring =
          let flight : (j : ℕ)
              → U.inflight q.uring j
                ≡ (if c.user_data == j then none else U.inflight s.ring.uring j) =
            λ j. ground (arith, ring, U.inflight-next s.ring.uring c j came) in
          record {
            links = record {
              linked = λ w k p. rw kept (links.linked w k (ground (arith, flight w)));
              registered = λ w io' p one'. ground (arith, kept, flight w, links.registered w io');
            };
            oneshot_move = stay (λ j. ground (arith, flight j, kept)) (λ j. rw same) (λ j. refl);
            multishot_move =
                finish c.user_data io.result_slab_idx
                  (record { is_done = e.finished; is_dropped = e.dropped }) (rw (flew, found, many))
                  (rw slot) (λ j. ground (arith, flight j, kept)) (λ j. ground (arith, ch j))
                  (λ j. refl);
          }

      -- The operation of the completion, by its kind.
      complete-Safely :
          (k : IoKind)
          → io.kind ≡ k
          → U.inflight s.ring.uring c.user_data ≡ some (class_of k)
          → Safely (apply s next_completion) Inv
      unfolding apply next
      complete-Safely oneshot one flew =
          let (d, a, open_slot) =
            oneshots_kept.flying_slot c.user_data io.result_slab_idx (rw (flew, found, one)) in
          let (e, slot, same_slot) =
            oneshot_slots-eq-some (S.get s.ring.results.oneshot io.result_slab_idx) a in
          let (q, eq, ch, gone, same, ring) = complete_oneshot taken c io e found one slot in
          Safely_ret Inv (rw (came, eq)) (
            Steps-Inv
              (oneshot_Steps e q one flew slot (ap (λ x. x.is_done) same_slot ∙ open_slot) ch gone
                same ring)
              v)
      complete-Safely multi many flew =
          let (d, a, open_slot) =
            multishots_kept.flying_slot c.user_data io.result_slab_idx (rw (flew, found, many)) in
          let (e, slot, f, g) =
            multishot_slots-eq-some (S.get s.ring.results.multishot io.result_slab_idx) a in
          elim (Bool-cases c.more) [
            | inl more ↦
                let (q, eq, ch, kept, same, ring) =
                  complete_more taken c io e found many slot more in
                Safely_ret Inv (rw (came, eq))
                  (Steps-Inv (more_Steps e q more slot ch kept same ring) v)
            | inr last ↦
                let (q, eq, ch, kept, same, ring) =
                  complete_last taken c io e found many slot last in
                Safely_ret Inv (rw (came, eq))
                  (Steps-Inv (last_Steps e q many flew last slot ch kept same ring) v)
          ]

    came-Safely : Safely (apply s next_completion) Inv
    came-Safely =
        let (k, flew) = U.next_inflight s.ring.uring c came in
        let (io, found, class) = links.linked c.user_data k flew in
        complete-Safely io found io.kind refl (flew ∙ ap some (sym class))

  pub next-Safely : Safely (apply s next_completion) Inv
  unfolding apply next
  next-Safely = elim (Option-cases (U.next s.ring.uring).0) [
    | inl empty ↦ Safely_ret Inv (rw empty) (
        Steps-Inv
          (kernel_Steps (U.next s.ring.uring).1 (λ j. U.inflight-next_none s.ring.uring j empty)) v)
    | inr (c, came) ↦ came-Safely c came
  ]
