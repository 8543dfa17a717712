-- ===== src/Reactor/System/Defs.antt =====
-- One ring, the handles that futures hold, and what may happen next.
use trale.Prelude.{ℕ, ◌≡◌, ◌==◌, if◌then◌else◌, Outcome, ret, Panic, ◌>>=◌, Ends}
use trale.Slab.{SlabApi}
use trale.RingBuffer.{BufferApi}
use trale.Uring.{UringApi, Entry, single_shot, multi_shot}
use trale.Reactor.Ring.Defs.{ReactorInner, next, wait}
use trale.Reactor.Ring.Defs
use trale.Reactor.Io.Oneshot
use trale.Reactor.Io.Multishot

-- The panics that the kernel or a full queue can bring about.
abbrev pub IsKernelPanic : Panic → Type 0
IsKernelPanic Panic.queue_full = Unit {0}
IsKernelPanic Panic.submit_failed = Unit {0}
IsKernelPanic Panic.cancel_failed = Unit {0}
IsKernelPanic _ = ⊥

-- A call returns with `P`, or panics for the kernel's reasons only.
abbrev pub Safely {ℓ} : {A : Type ℓ} → Outcome A → (A → Type 0) → Type 0
Safely o P = Ends IsKernelPanic P o

module _ ⦃S : SlabApi⦄ ⦃B : BufferApi⦄ ⦃U : UringApi⦄ where
  -- A handle that is not in use is `fresh`.
  pub record System (T : Type 0) : Type 0 where
    pub ring : ReactorInner T
    pub oneshots : ℕ → Oneshot.IoState
    pub multishots : ℕ → Multishot.IoState

  abbrev pub update {ℓ} : {A : Type ℓ} → (ℕ → A) → ℕ → A → ℕ → A
  update f i a j = if i == j then a else f j

  -- A poll passes the entry and the object that its closure would build.
  pub data Action (T : Type 0) : Type 0 where
    poll_oneshot : ℕ → Entry → T → Action T
    drop_oneshot : ℕ → Action T
    poll_multishot : ℕ → Entry → T → Action T
    drop_multishot : ℕ → Action T
    next_completion : Action T
    wait_completion : Action T

  -- The futures submit operations of their handle's kind.
  abbrev pub IsFit : {T : Type 0} → Action T → Type 0
  IsFit (poll_oneshot h e obj) = U.op_class e ≡ single_shot
  IsFit (poll_multishot h e obj) = U.op_class e ≡ multi_shot
  IsFit _ = Unit {0}

  module _ {T : Type 0} where
    unfoldable pub apply : System T → Action T → Outcome (System T)
    apply s (poll_oneshot h e obj) = do
      (poll, state, r) ← Oneshot.submit_or_get_result (s.oneshots h) (λ _. (e, obj)) s.ring
      ret (record s { ring = r; oneshots = update s.oneshots h state })
    apply s (drop_oneshot h) = do
      r ← Oneshot.drop (s.oneshots h) s.ring
      ret (record s { ring = r; oneshots = update s.oneshots h Oneshot.IoState.fresh })
    apply s (poll_multishot h e obj) = do
      (poll, state, r) ← Multishot.submit_or_get_result (s.multishots h) (λ _. (e, obj)) s.ring
      ret (record s { ring = r; multishots = update s.multishots h state })
    apply s (drop_multishot h) = do
      r ← Multishot.drop (s.multishots h) s.ring
      ret (record s { ring = r; multishots = update s.multishots h Multishot.IoState.fresh })
    apply s next_completion = do (obj, r) ← next s.ring; ret (record s { ring = r })
    apply s wait_completion = do r ← wait s.ring; ret (record s { ring = r })

  unfoldable pub boot : {T : Type 0} → System T
  unfolding Defs.new
  boot = record {
    ring = Defs.new;
    oneshots = λ h. Oneshot.IoState.fresh;
    multishots = λ h. Multishot.IoState.fresh;
  }
