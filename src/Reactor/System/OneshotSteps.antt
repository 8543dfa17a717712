-- ===== src/Reactor/System/OneshotSteps.antt =====
-- Polls and drops of oneshot handles.
use trale.Prelude.{ℕ, ◌≡◌, refl, ap, ◌∙◌, inl, inr, false, none, some, Panic, arith, ℤ}
use trale.Slab.{SlabApi, Changes}
use trale.RingBuffer.{BufferApi}
use trale.Uring.{UringApi, Entry, single_shot}
use trale.Reactor.Result.Oneshot.{ResultState, OneshotStore, pending, set_to, dropped}
use trale.Reactor.Result.Oneshot.Slots as OneshotSlots
use trale.Reactor.Ring.Defs.{ReactorInner, oneshot, multi}
use trale.Reactor.Ring.Links.{submit-IsLinked, submit_flying}
use trale.Reactor.Ring.Submit.{submit_io_lem, Submits}
use trale.Reactor.Io.Oneshot
use trale.Reactor.Io.Oneshot.{IoState, fresh, submitted, finished}
use trale.Reactor.Lane.{stay, submit, take, release}
use trale.Reactor.System.Defs.{System, poll_oneshot, drop_oneshot, apply, update, Safely}
use trale.Reactor.System.Lanes.{oneshot_slot, oneshot_slots-eq-some, oneshot_handle}
use trale.Reactor.System.Invariant.{Inv, Steps, Steps-Inv, Safely_ret, Safely_panic}

module _ ⦃S : SlabApi⦄ ⦃B : BufferApi⦄ ⦃U : UringApi⦄ {T : Type 0} (s : System T) (v : Inv s)
    (h : ℕ) where
  open v use {links, oneshots_kept}

  -- A new handle: the operation is in flight, and its slot is the handle's.
  pub submit_Steps :
      (e : Entry) (obj : T) (u i : ℕ) (q : ReactorInner T)
      → U.op_class e ≡ single_shot
      → s.oneshots h ≡ fresh
      → Submits s.ring e obj oneshot u i q
      → Steps s (record s { ring = q; oneshots = update s.oneshots h (submitted i) })
  submit_Steps e obj u i q fit new sub = record {
    links = submit-IsLinked s.ring q e obj oneshot u i fit sub links;
    oneshot_move =
        submit u i h (ground arith) (ground arith) (rw new)
          (submit_flying s.ring q e obj oneshot u i fit sub links oneshot)
          (λ j. ground (arith, sub.created.1 j)) (λ j. ground arith);
    multishot_move =
        stay (λ j. ground (arith, submit_flying s.ring q e obj oneshot u i fit sub links multi j))
          (λ j. rw sub.created.2) (λ j. refl);
  }

  -- The ring with another oneshot store, and the handle with another state.
  abbrev put_store : OneshotStore → IoState → System T
  put_store st state = record s {
    ring = record (s.ring) { results = record (s.ring.results) { oneshot = st } };
    oneshots = update s.oneshots h state;
  }

  -- A handle that is not `submitted` may change to another such, with nothing else changed.
  pub idle_Steps :
      (state : IoState)
      → oneshot_handle state ≡ oneshot_handle (s.oneshots h)
      → Steps s (put_store s.ring.results.oneshot state)
  idle_Steps state same = record {
    links = links;
    oneshot_move = stay (λ j. refl) (λ j. refl) (λ j. ground arith);
    multishot_move = stay (λ j. refl) (λ j. refl) (λ j. refl);
  }

  -- The slot of a submitted handle, which is not `dropped`.
  slot_of :
      (i : ℕ)
      → s.oneshots h ≡ submitted i
      → (st : ResultState) × (S.get s.ring.results.oneshot i ≡ some st)
        × ((oneshot_slot st).is_dropped ≡ false)
  slot_of i held =
      let (e, a, b) = oneshots_kept.handle_slot h i (rw held) in
      let (st, c, d) = oneshot_slots-eq-some (S.get s.ring.results.oneshot i) a in
      (st, c, ap (λ x. x.is_dropped) d ∙ b)

  pub take_Steps :
      (i : ℕ) (r : ℤ) (st : OneshotStore)
      → s.oneshots h ≡ submitted i
      → S.get s.ring.results.oneshot i ≡ some (set_to r)
      → Changes s.ring.results.oneshot i none st
      → Steps s (put_store st (finished r))
  take_Steps i r st held slot ch = record {
    links = record { linked = links.linked; registered = links.registered };
    oneshot_move =
        take h i (oneshot_slot (set_to r)) (rw held) (rw slot) refl (λ j. refl)
          (λ j. ground (arith, ch j)) (λ j. ground arith);
    multishot_move = stay (λ j. refl) (λ j. refl) (λ j. refl);
  }

  release_Steps :
      (i : ℕ) (e : ResultState) (st : OneshotStore)
      → s.oneshots h ≡ submitted i
      → S.get s.ring.results.oneshot i ≡ some e
      → Changes s.ring.results.oneshot i (OneshotSlots.released e) st
      → Steps s (put_store st fresh)
  release_Steps i e st held slot ch = record {
    links = record { linked = links.linked; registered = links.registered };
    oneshot_move =
        release h i (oneshot_slot e) (rw held) (rw slot) (λ j. refl) (λ j. ground (arith, ch j))
          (λ j. ground arith);
    multishot_move = stay (λ j. refl) (λ j. refl) (λ j. refl);
  }

  poll_submitted :
      (e : Entry) (obj : T) (i : ℕ)
      → s.oneshots h ≡ submitted i
      → (st : ResultState) → S.get s.ring.results.oneshot i ≡ some st
      → (oneshot_slot st).is_dropped ≡ false
      → Safely (apply s (poll_oneshot h e obj)) Inv
  unfolding apply Oneshot.submit_or_get_result
  poll_submitted e obj i held pending slot live =
      Safely_ret Inv (rw (held, OneshotSlots.get_result_pending s.ring.results.oneshot i slot))
        (Steps-Inv (idle_Steps (submitted i) (rw held)) v)
  poll_submitted e obj i held (set_to r) slot live =
      let (st, eq, ch) = OneshotSlots.get_result_set s.ring.results.oneshot i r slot in
      Safely_ret Inv (rw (held, eq)) (Steps-Inv (take_Steps i r st held slot ch) v)
  poll_submitted e obj i held dropped slot live = absurd (cc)

  poll_from :
      (e : Entry) (obj : T) (state : IoState)
      → U.op_class e ≡ single_shot
      → s.oneshots h ≡ state
      → Safely (apply s (poll_oneshot h e obj)) Inv
  unfolding apply Oneshot.submit_or_get_result
  poll_from e obj fresh fit held = elim (submit_io_lem s.ring e obj oneshot) [
    | inl full ↦ Safely_panic {p = Panic.queue_full} Inv (rw (held, full)) tt
    | inr (u, i, q, eq, sub) ↦
        Safely_ret Inv (rw (held, eq)) (Steps-Inv (submit_Steps e obj u i q fit held sub) v)
  ]
  poll_from e obj (submitted i) fit held =
      let (st, slot, live) = slot_of i held in poll_submitted e obj i held st slot live
  poll_from e obj (finished r) fit held =
      Safely_ret Inv (rw held) (Steps-Inv (idle_Steps (finished r) (rw held)) v)

  pub poll_oneshot-Safely :
      (e : Entry) (obj : T)
      → U.op_class e ≡ single_shot
      → Safely (apply s (poll_oneshot h e obj)) Inv
  poll_oneshot-Safely e obj fit = poll_from e obj (s.oneshots h) fit refl

  drop_from : (state : IoState) → s.oneshots h ≡ state → Safely (apply s (drop_oneshot h)) Inv
  unfolding apply Oneshot.drop
  drop_from fresh held = Safely_ret Inv (rw held) (Steps-Inv (idle_Steps fresh (rw held)) v)
  drop_from (finished r) held = Safely_ret Inv (rw held) (Steps-Inv (idle_Steps fresh (rw held)) v)
  drop_from (submitted i) held =
      let (e, slot, live) = slot_of i held in
      let (st, eq, ch) = OneshotSlots.drop_result_lem s.ring.results.oneshot i e slot in
      Safely_ret Inv (rw (held, eq)) (Steps-Inv (release_Steps i e st held slot ch) v)

  pub drop_oneshot-Safely : Safely (apply s (drop_oneshot h)) Inv
  drop_oneshot-Safely = drop_from (s.oneshots h) refl
