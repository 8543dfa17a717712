-- ===== src/Prelude/Panics.antt =====
-- What a Rust call comes to: it returns, or it panics. The reasons are those of the source's
-- `unwrap`, `expect`, `panic!` and slab accesses.
use mathlib.Core.Path.{◌≡◌, refl, subst}
use mathlib.Core.Logic.{◌⊎◌, inl, inr}
use mathlib.Core.Option.{Option, none, some}

pub data Panic : Type 0 where
  -- a slab key with no entry
  vacant_key : Panic
  -- the result of a dropped I/O is asked for
  dropped_result : Panic
  -- the submission queue is full
  queue_full : Panic
  -- `io_uring_enter` failed
  submit_failed : Panic
  -- the cancellation of a multishot I/O failed
  cancel_failed : Panic
  -- the run queue is empty after the reactor has run
  no_task : Panic
  -- `unreachable!`
  unreachable : Panic
  -- an `async` function is polled after it has returned
  resumed : Panic
  -- an index past the end of a slice
  out_of_bounds : Panic
  -- any other `unwrap` of an error or of `None`
  unwrap_failed : Panic

pub data Outcome {ℓ} (A : Type ℓ) : Type ℓ where
  ret : A → Outcome A
  panic : Panic → Outcome A

infixl 5 ◌>>=◌
abbrev pub ◌>>=◌ {ℓ κ} : {A : Type ℓ} {B : Type κ} → Outcome A → (A → Outcome B) → Outcome B
ret a >>= f = f a
panic p >>= f = panic p

-- `Option::unwrap` and `Result::unwrap`, with the reason of the panic.
abbrev pub unwrap {ℓ} : {A : Type ℓ} → Panic → Option A → Outcome A
unwrap p none = panic p
unwrap p (some a) = ret a

pub >>=-eq-ret {ℓ κ} :
    {A : Type ℓ} {B : Type κ} (m : Outcome A) (f : A → Outcome B) {b : B}
    → (m >>= f) ≡ ret b
    → (a : A) × (m ≡ ret a) × (f a ≡ ret b)
>>=-eq-ret (ret a) f h = (a, refl, h)
>>=-eq-ret (panic p) f h = cc

-- What holds of the value, if the call returns.
abbrev pub OnRet {ℓ κ} : {A : Type ℓ} → (A → Type κ) → Outcome A → Type κ
OnRet P (ret a) = P a
OnRet P (panic p) = Unit

pub OnRet-bind {ℓ κ μ} :
    {A : Type ℓ} {B : Type κ} (Q : A → Type μ) (P : B → Type μ) (m : Outcome A) (f : A → Outcome B)
    → OnRet Q m
    → ((a : A) → Q a → OnRet P (f a))
    → OnRet P (m >>= f)
OnRet-bind Q P (ret a) f q h = h a q
OnRet-bind Q P (panic p) f q h = tt

pub OnRet-all {ℓ μ} : {A : Type ℓ} (P : A → Type μ) (m : Outcome A) → ((a : A) → P a) → OnRet P m
OnRet-all P (ret a) h = h a
OnRet-all P (panic p) h = tt

-- What holds of a returned value.
pub OnRet-eq {ℓ κ} :
    {A : Type ℓ} (P : A → Type κ) (o : Outcome A) (a : A) → OnRet P o → o ≡ ret a → P a
OnRet-eq P o a h e = subst (OnRet P) e h

pub OnRet-of {ℓ κ} :
    {A : Type ℓ} (P : A → Type κ) (o : Outcome A) → ((a : A) → o ≡ ret a → P a) → OnRet P o
OnRet-of P (ret a) h = h a refl
OnRet-of P (panic p) h = tt

pub OnRet-each {ℓ κ μ} :
    {A : Type ℓ} {B : Type κ} (P : B → Type μ) (m : Outcome A) (f : A → Outcome B)
    → ((a : A) → OnRet P (f a))
    → OnRet P (m >>= f)
OnRet-each P (ret a) f h = h a
OnRet-each P (panic p) f h = tt

pub Outcome-cases {ℓ} :
    {A : Type ℓ} (o : Outcome A) → ((a : A) × (o ≡ ret a)) ⊎ ((p : Panic) × (o ≡ panic p))
Outcome-cases (ret a) = inl (a, refl)
Outcome-cases (panic p) = inr (p, refl)

-- A call returns with `P`, or panics for a reason in `K`.
abbrev pub Ends {ℓ} : {A : Type ℓ} → (Panic → Type 0) → (A → Type 0) → Outcome A → Type 0
Ends K P (ret a) = P a
Ends K P (panic p) = K p

pub Ends-bind {ℓ κ} :
    {A : Type ℓ} {B : Type κ} (K : Panic → Type 0) (P : A → Type 0) (Q : B → Type 0) (o : Outcome A)
    (f : A → Outcome B)
    → Ends K P o
    → ((a : A) → P a → Ends K Q (f a))
    → Ends K Q (o >>= f)
Ends-bind K P Q (ret a) f h k = k a h
Ends-bind K P Q (panic p) f h k = h

pub Ends-weaken {ℓ} :
    {A : Type ℓ} {K L : Panic → Type 0} (P : A → Type 0)
    → ((p : Panic) → K p → L p)
    → (o : Outcome A) → Ends K P o
    → Ends L P o
Ends-weaken P h (ret a) e = e
Ends-weaken P h (panic p) e = h p e
