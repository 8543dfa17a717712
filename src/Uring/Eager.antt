-- ===== src/Uring/Eager.antt =====
-- A kernel that ends every operation in flight at the next wait, with one result.
use trale.Prelude.{
  ◌-◌, ℕ, suc, ◌≡◌, refl, sym, ap, subst, ◌∙◌, false, not, ◌&&◌, Bool, true, Option, none, some,
  List, [], ◌∷◌, length, ◌<◌, ltb, ◌==◌, if◌then◌else◌, arith, pos, map, ==_refl,
}
use trale.Uring.Api.{entries, OpClass, Cqe, UringApi, class_of}

pub record Kernel : Type 0 where
  pub flight : List (ℕ × OpClass)
  pub used : ℕ
  pub posted : List ℕ

abbrev pub lookup : List (ℕ × OpClass) → ℕ → Option OpClass
lookup [] j = none
lookup ((u, k) ∷ xs) j = if u == j then some k else lookup xs j

abbrev pub erase : List (ℕ × OpClass) → ℕ → List (ℕ × OpClass)
erase [] j = []
erase ((u, k) ∷ xs) j = if u == j then erase xs j else (u, k) ∷ erase xs j

pub lookup-erase :
    (xs : List (ℕ × OpClass)) (i j : ℕ)
    → lookup (erase xs i) j ≡ (if i == j then none else lookup xs j)
lookup-erase [] i j = ground arith
lookup-erase ((u, k) ∷ xs) i j = ground (arith, lookup-erase xs i j)

abbrev pub inflight : Kernel → ℕ → Option OpClass
inflight r j = lookup r.flight j

abbrev pub push : Kernel → OpClass → ℕ → Option Kernel
push r e u =
    if ltb r.used entries
    then some (record r { flight = (u, e) ∷ r.flight; used = suc r.used })
    else none

abbrev pub post : List (ℕ × OpClass) → Kernel → Option Kernel
post [] r = none
post (x ∷ xs) r = some (record r { used = 0; posted = map (λ p. p.0) (x ∷ xs) })

abbrev pub submit_and_wait : Kernel → Option Kernel
submit_and_wait r = post r.flight r

abbrev pub cqe : ℕ → Cqe
cqe u = record { user_data = u; result = pos 1; more = false }

-- An operation that has ended is passed over.
abbrev pub taken : Option OpClass → ℕ → List ℕ → Kernel → Option Cqe × Kernel → Option Cqe × Kernel
taken none u us r rest = rest
taken (some k) u us r rest = (some (cqe u), record r { flight = erase r.flight u; posted = us })

abbrev pub next_of : List ℕ → Kernel → Option Cqe × Kernel
next_of [] r = (none, record r { posted = [] })
next_of (u ∷ us) r = taken (lookup r.flight u) u us r (next_of us r)

abbrev pub next : Kernel → Option Cqe × Kernel
next r = next_of r.posted r

abbrev pub if_flies : Option OpClass → Kernel → Option Kernel
if_flies none r = none
if_flies (some k) r = some r

abbrev pub sync_cancel : Kernel → ℕ → Option Kernel
sync_cancel r u = if_flies (lookup r.flight u) r

-- What the next completion is, and what is left.
abbrev pub Nexts : List ℕ → Kernel → Cqe → Kernel → Type 0
Nexts us r c q =
    (k : OpClass) × (lookup r.flight c.user_data ≡ some k)
    × (c.more ≡ false)
    × (q.flight ≡ erase r.flight c.user_data)
    × (length q.posted < length us)
    × (q.used ≡ r.used)

taken-Nexts :
    (o : Option OpClass) (u : ℕ) (us : List ℕ) (r : Kernel) (rest : Option Cqe × Kernel) (c : Cqe)
    → lookup r.flight u ≡ o
    → (rest.0 ≡ some c → Nexts us r c rest.1)
    → (taken o u us r rest).0 ≡ some c
    → Nexts (u ∷ us) r c (taken o u us r rest).1
taken-Nexts none u us r rest c e ih h =
    let (k, a, b, d, lt, s) = ih h in (k, a, b, d, omega (arith, lt), s)
taken-Nexts (some k) u us r rest c e ih h =
    (k, ground arith, ground arith, ground arith, omega arith, refl)

pub next_of-Nexts :
    (us : List ℕ) (r : Kernel) (c : Cqe) → (next_of us r).0 ≡ some c → Nexts us r c (next_of us r).1
next_of-Nexts [] r c h = absurd (cc)
next_of-Nexts (u ∷ us) r c h =
    taken-Nexts (lookup r.flight u) u us r (next_of us r) c refl (next_of-Nexts us r c) h

one_byte-taken :
    (o : Option OpClass) (u : ℕ) (us : List ℕ) (r : Kernel) (rest : Option Cqe × Kernel) (c : Cqe)
    → (rest.0 ≡ some c → c.result ≡ pos 1)
    → (taken o u us r rest).0 ≡ some c
    → c.result ≡ pos 1
one_byte-taken none u us r rest c ih h = ih h
one_byte-taken (some k) u us r rest c ih h = ground arith

-- Every completion has the result 1.
pub one_byte-next_of :
    (us : List ℕ) (r : Kernel) (c : Cqe) → (next_of us r).0 ≡ some c → c.result ≡ pos 1
one_byte-next_of [] r c h = absurd (cc)
one_byte-next_of (u ∷ us) r c h =
    one_byte-taken (lookup r.flight u) u us r (next_of us r) c (one_byte-next_of us r c) h

taken_none :
    (o : Option OpClass) (u : ℕ) (us : List ℕ) (r : Kernel) (rest : Option Cqe × Kernel)
    → (rest.0 ≡ none → (rest.1.flight ≡ r.flight))
    → (taken o u us r rest).0 ≡ none
    → (taken o u us r rest).1.flight ≡ r.flight
taken_none none u us r rest ih h = ih h
taken_none (some k) u us r rest ih h = absurd (cc)

pub next_of-none :
    (us : List ℕ) (r : Kernel) → (next_of us r).0 ≡ none → (next_of us r).1.flight ≡ r.flight
next_of-none [] r h = refl
next_of-none (u ∷ us) r h =
    taken_none (lookup r.flight u) u us r (next_of us r) (next_of-none us r) h

used-taken :
    (o : Option OpClass) (u : ℕ) (us : List ℕ) (r : Kernel) (rest : Option Cqe × Kernel)
    → rest.1.used ≡ r.used
    → (taken o u us r rest).1.used ≡ r.used
used-taken none u us r rest ih = ih
used-taken (some k) u us r rest ih = refl

pub used-next_of : (us : List ℕ) (r : Kernel) → (next_of us r).1.used ≡ r.used
used-next_of [] r = refl
used-next_of (u ∷ us) r = used-taken (lookup r.flight u) u us r (next_of us r) (used-next_of us r)

last_lem :
    {A : Type 0} (o : Option A) (b m : Bool)
    → m ≡ false
    → (if b then none else o) ≡ (if b && not m then none else o)
last_lem o true m e = rw e refl
last_lem o false m e = refl

pub inflight-next :
    (r : Kernel) (c : Cqe) (j : ℕ)
    → (next r).0 ≡ some c
    → inflight (next r).1 j ≡ (if (c.user_data == j) && not c.more then none else inflight r j)
inflight-next r c j h =
    let (k, a, last, gone, lt, used) = next_of-Nexts r.posted r c h in
    ap (λ f. lookup f j) gone
    ∙ lookup-erase r.flight c.user_data j
    ∙ last_lem (lookup r.flight j) (c.user_data == j) c.more last

pub post-eq :
    (xs : List (ℕ × OpClass)) (r q : Kernel)
    → post xs r ≡ some q
    → (u : ℕ) × (k : OpClass) × (ys : List (ℕ × OpClass)) × (zs : List ℕ) × (xs ≡ (u, k) ∷ ys)
      × (q ≡ record r { used = 0; posted = u ∷ zs })
post-eq [] r q h = absurd (cc)
post-eq ((u, k) ∷ ys) r q h = (u, k, ys, map (λ p. p.0) ys, refl, cc)

pub submit_and_wait_ready :
    (r q : Kernel) → submit_and_wait r ≡ some q → (c : Cqe) × ((next q).0 ≡ some c)
submit_and_wait_ready r q h =
    let (u, k, ys, zs, e, f) = post-eq r.flight r q h in
    let head : lookup ((u, k) ∷ ys) u ≡ some k = rw (==_refl u) in
    let found : lookup r.flight u ≡ some k = ap (λ f. lookup f u) e ∙ head in
    let s : Kernel = record r { used = 0; posted = u ∷ zs } in
    let came : (next s).0 ≡ some (cqe u) = ap (λ o. (taken o u zs s (next_of zs s)).0) found in
    (cqe u, subst (λ q. (next q).0 ≡ some (cqe u)) (sym f) came)

pub if_flies-eq : (o : Option OpClass) (r q : Kernel) → if_flies o r ≡ some q → r ≡ q
if_flies-eq none r q h = absurd (cc)
if_flies-eq (some k) r q h = cc

pub push_room :
    (r : Kernel) (e : OpClass) (u n : ℕ)
    → entries - r.used ≡ suc n
    → (q : Kernel) × (push r e u ≡ some q)
push_room r e u n h = (record r { flight = (u, e) ∷ r.flight; used = suc r.used }, ground arith)

pub push_full : (r : Kernel) (e : OpClass) (u : ℕ) → entries - r.used ≡ 0 → push r e u ≡ none
push_full r e u h = ground arith

pub room-push :
    (r : Kernel) (e : OpClass) (u : ℕ) (q : Kernel)
    → push r e u ≡ some q
    → entries - r.used ≡ suc (entries - q.used)
room-push r e u q h = ground arith

pub inflight-push :
    (r : Kernel) (e : OpClass) (u : ℕ) (q : Kernel) (j : ℕ)
    → push r e u ≡ some q
    → inflight q j ≡ (if u == j then some e else inflight r j)
inflight-push r e u q j h = ground arith

-- A wait returns whenever an operation is in flight.
pub submit_and_wait_serves :
    (r : Kernel) (u : ℕ) (k : OpClass)
    → inflight r u ≡ some k
    → (q : Kernel) × (submit_and_wait r ≡ some q)
submit_and_wait_serves r u k h = serve r.flight refl
  where
    serve : (xs : List (ℕ × OpClass)) → xs ≡ r.flight → (q : Kernel) × (post xs r ≡ some q)
    serve [] e = absurd (cc (ap (λ f. lookup f u) e))
    serve (x ∷ xs) e = (_, refl)

abbrev pub eager : UringApi
eager = record {
  Entry = OpClass;
  Ring = Kernel;
  new = record { flight = []; used = 0; posted = [] };
  op_class = λ e. e;
  build = class_of;
  op_class-build = λ o. refl;
  push = push;
  submit_and_wait = submit_and_wait;
  next = next;
  sync_cancel = sync_cancel;
  inflight = inflight;
  queued = λ r. length r.posted;
  queued-next = λ r c h. (next_of-Nexts r.posted r c h).4;
  room = λ r. entries - r.used;
  room-new = refl;
  push_room = push_room;
  push_full = push_full;
  room-push = room-push;
  room-submit_and_wait = λ r q h. let (u, k, ys, zs, e, f) = post-eq r.flight r q h in rw f refl;
  room-next = λ r. ap (λ n. entries - n) (used-next_of r.posted r);
  inflight-new = λ j. refl;
  inflight-push = inflight-push;
  inflight-submit_and_wait =
      λ r q j h. let (u, k, ys, zs, e, f) = post-eq r.flight r q h in rw f refl;
  submit_and_wait_ready = submit_and_wait_ready;
  next_inflight = λ r c h. let x = next_of-Nexts r.posted r c h in (x.0, x.1);
  next_single = λ r c h k. (next_of-Nexts r.posted r c h).2;
  inflight-next = inflight-next;
  inflight-next_none = λ r j h. ap (λ f. lookup f j) (next_of-none r.posted r h);
  inflight-sync_cancel =
      λ r u q j h. ap (λ k. inflight k j) (sym (if_flies-eq (lookup r.flight u) r q h));
  sync_cancel_missing = λ r u h. rw h;
}
