-- ===== src/Reactor/System/Lanes.antt =====
-- The system seen as two lanes.
use trale.Prelude.{ℕ, ◌≡◌, refl, true, false, Option, none, some, arith}
use trale.Slab.{SlabApi}
use trale.RingBuffer.{BufferApi}
use trale.Uring.{UringApi}
use trale.Reactor.Result.Oneshot.{ResultState, pending, set_to, dropped}
use trale.Reactor.Result.Multishot.{MultishotResultState}
use trale.Reactor.Ring.Defs.{oneshot, multi}
use trale.Reactor.Ring.Links.{flying_at}
use trale.Reactor.Io.Oneshot
use trale.Reactor.Io.Multishot
use trale.Reactor.Lane.{Slot, Lane}
use trale.Reactor.System.Defs.{System}

abbrev pub oneshot_slot : ResultState → Slot
oneshot_slot pending = record { is_done = false; is_dropped = false }
oneshot_slot (set_to v) = record { is_done = true; is_dropped = false }
oneshot_slot dropped = record { is_done = false; is_dropped = true }

abbrev pub oneshot_slots : Option ResultState → Option Slot
oneshot_slots none = none
oneshot_slots (some e) = some (oneshot_slot e)

pub oneshot_slots-eq-some :
    (o : Option ResultState) {e : Slot}
    → oneshot_slots o ≡ some e
    → (st : ResultState) × (o ≡ some st) × (oneshot_slot st ≡ e)
oneshot_slots-eq-some none h = absurd (cc)
oneshot_slots-eq-some (some st) h = (st, refl, cc)

pub oneshot_free : (o : Option ResultState) → oneshot_slots o ≡ none → o ≡ none
oneshot_free none h = refl
oneshot_free (some e) h = absurd (cc)

abbrev pub oneshot_handle : Oneshot.IoState → Option ℕ
oneshot_handle (Oneshot.IoState.submitted i) = some i
oneshot_handle _ = none

abbrev pub multishot_handle : Multishot.IoState → Option ℕ
multishot_handle (Multishot.IoState.submitted i u) = some i
multishot_handle _ = none

module _ ⦃B : BufferApi⦄ where
  abbrev pub multishot_slots : Option MultishotResultState → Option Slot
  multishot_slots none = none
  multishot_slots (some e) = some (record { is_done = e.finished; is_dropped = e.dropped })

  pub multishot_slots-eq-some :
      (o : Option MultishotResultState) {e : Slot}
      → multishot_slots o ≡ some e
      → (st : MultishotResultState) × (o ≡ some st)
        × (st.finished ≡ e.is_done)
        × (st.dropped ≡ e.is_dropped)
  multishot_slots-eq-some none h = absurd (cc)
  multishot_slots-eq-some (some st) {e} h = (st, refl, ground arith, ground arith)

  pub multishot_free : (o : Option MultishotResultState) → multishot_slots o ≡ none → o ≡ none
  multishot_free none h = refl
  multishot_free (some e) h = absurd (cc)

module _ ⦃S : SlabApi⦄ ⦃B : BufferApi⦄ ⦃U : UringApi⦄ {T : Type 0} where
  abbrev pub oneshot_lane : System T → Lane
  oneshot_lane s = record {
    flying = λ u. flying_at oneshot (U.inflight s.ring.uring u) (S.get s.ring.pending u);
    slots = λ i. oneshot_slots (S.get s.ring.results.oneshot i);
    handles = λ h. oneshot_handle (s.oneshots h);
  }

  abbrev pub multishot_lane : System T → Lane
  multishot_lane s = record {
    flying = λ u. flying_at multi (U.inflight s.ring.uring u) (S.get s.ring.pending u);
    slots = λ i. multishot_slots (S.get s.ring.results.multishot i);
    handles = λ h. multishot_handle (s.multishots h);
  }
