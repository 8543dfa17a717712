-- ===== src/Reactor/System/Invariant.antt =====
-- What holds of the system between two actions.
use trale.Prelude.{◌≡◌, sym, subst, Outcome, ret, panic, Panic}
use trale.Slab.{SlabApi}
use trale.RingBuffer.{BufferApi}
use trale.Uring.{UringApi}
use trale.Reactor.Ring.Links.{IsLinked}
use trale.Reactor.Lane as ReactorLane
use trale.Reactor.Lane.{Move}
use trale.Reactor.Lane.Keeps.{Move-Inv}
use trale.Reactor.System.Defs.{System, Safely, IsKernelPanic}
use trale.Reactor.System.Lanes.{oneshot_lane, multishot_lane}

pub Safely_ret :
    {A : Type 0} {o : Outcome A} {a : A} (P : A → Type 0) → o ≡ ret a → P a → Safely o P
Safely_ret P e p = subst (λ x. Safely x P) (sym e) p

pub Safely_panic :
    {A : Type 0} {o : Outcome A} {p : Panic} (P : A → Type 0)
    → o ≡ panic p
    → IsKernelPanic p
    → Safely o P
Safely_panic P e k = subst (λ x. Safely x P) (sym e) k

module _ ⦃S : SlabApi⦄ ⦃B : BufferApi⦄ ⦃U : UringApi⦄ {T : Type 0} where
  pub record Inv (s : System T) : Type 0 where
    pub links : IsLinked s.ring
    pub oneshots_kept : ReactorLane.Inv (oneshot_lane s)
    pub multishots_kept : ReactorLane.Inv (multishot_lane s)

  pub record Steps (s t : System T) : Type 0 where
    pub links : IsLinked t.ring
    pub oneshot_move : Move (oneshot_lane s) (oneshot_lane t)
    pub multishot_move : Move (multishot_lane s) (multishot_lane t)

  pub Steps-Inv : {s t : System T} → Steps s t → Inv s → Inv t
  Steps-Inv st v = record {
    links = st.links;
    oneshots_kept = Move-Inv st.oneshot_move v.oneshots_kept;
    multishots_kept = Move-Inv st.multishot_move v.multishots_kept;
  }
