-- ===== src/Reactor/Ring/Links.antt =====
-- How the ring's records and the kernel's operations belong together.
use trale.Prelude.{ℕ, ◌≡◌, refl, inl, inr, eq_cases, none, some, Option, ◌==◌, if◌then◌else◌, arith}
use trale.Slab.{SlabApi}
use trale.RingBuffer.{BufferApi}
use trale.Uring.{UringApi, OpClass, single_shot, multi_shot, Entry}
use trale.Reactor.Ring.Defs.{ReactorInner, PendingIo, IoKind, oneshot, multi}
use trale.Reactor.Ring.Submit.{Submits}

abbrev pub class_of : IoKind → OpClass
class_of oneshot = single_shot
class_of multi = multi_shot

-- the slot of an operation of the first kind, if it is of the second
abbrev pub flying_as : IoKind → IoKind → ℕ → Option ℕ
flying_as oneshot oneshot i = some i
flying_as multi multi i = some i
flying_as _ _ i = none

abbrev pub flying_at : {T : Type 0} → IoKind → Option OpClass → Option (PendingIo T) → Option ℕ
flying_at k none io = none
flying_at k (some c) none = none
flying_at k (some c) (some io) = flying_as k io.kind io.result_slab_idx

flying_as-eq : (k l : IoKind) (i : ℕ) {j : ℕ} → flying_as k l i ≡ some j → (l ≡ k) × (i ≡ j)
flying_as-eq oneshot oneshot i h = (refl, ground arith)
flying_as-eq multi multi i h = (refl, ground arith)
flying_as-eq oneshot multi i h = absurd (cc)
flying_as-eq multi oneshot i h = absurd (cc)

pub flying_at-eq :
    {T : Type 0} (k : IoKind) (c : Option OpClass) (o : Option (PendingIo T)) {j : ℕ}
    → flying_at k c o ≡ some j
    → (io : PendingIo T) × (o ≡ some io) × (io.kind ≡ k) × (io.result_slab_idx ≡ j)
flying_at-eq k none o h = absurd (cc)
flying_at-eq k (some c) none h = absurd (cc)
flying_at-eq k (some c) (some io) h =
    let (a, b) = flying_as-eq k io.kind io.result_slab_idx h in (io, refl, a, b)

module _ ⦃S : SlabApi⦄ ⦃B : BufferApi⦄ ⦃U : UringApi⦄ {T : Type 0} where
  -- Every operation in flight is recorded under its user data, with its kind; a record of a oneshot
  -- operation goes when the operation ends.
  pub record IsLinked (r : ReactorInner T) : Type 0 where
    pub linked :
        (u : ℕ) (c : OpClass)
        → U.inflight r.uring u ≡ some c
        → (io : PendingIo T) × (S.get r.pending u ≡ some io) × (class_of io.kind ≡ c)
    pub registered :
        (u : ℕ) (io : PendingIo T)
        → S.get r.pending u ≡ some io
        → io.kind ≡ oneshot
        → U.inflight r.uring u ≡ some single_shot

  module _ (r q : ReactorInner T) (e : Entry) (obj : T) (k : IoKind) (u i : ℕ)
      (fit : U.op_class e ≡ class_of k) (sub : Submits r e obj k u i q) (v : IsLinked r) where
    open sub use {free_key, recorded, launched}

    abbrev record_of : PendingIo T
    record_of = record { assoc_obj = obj; result_slab_idx = i; kind = k }

    pub submit-IsLinked : IsLinked q
    submit-IsLinked = record {
      linked = λ w c p. elim (eq_cases u w) [
        | inl same ↦ (record_of, ground (arith, recorded w), ground (arith, launched w))
        | inr other ↦
            let (io, a, b) = v.linked w c (ground (arith, launched w)) in
            (io, ground (arith, recorded w), b)
      ];
      registered = λ w io p one. ground (arith, recorded w, launched w, v.registered w io);
    }

    -- The new operation flies in the lane of its kind.
    pub submit_flying :
        (l : IoKind) (j : ℕ)
        → flying_at l (U.inflight q.uring j) (S.get q.pending j) ≡ (
            if u == j
            then flying_as l k i
            else flying_at l (U.inflight r.uring j) (S.get r.pending j))
    submit_flying l j = ground (arith, recorded j, launched j)
