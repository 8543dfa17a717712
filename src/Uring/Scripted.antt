-- ===== src/Uring/Scripted.antt =====
-- A kernel that posts completions from a script, for the concrete runs.
use trale.Prelude.{
  ◌-◌, ℕ, suc, ◌≡◌, refl, sym, subst, ◌∙◌, ap, false, not, ◌&&◌, Option, none, some, List, [], ◌∷◌,
  ◌++◌, length, ◌<◌, ltb, ◌==◌, if◌then◌else◌, arith, negsuc,
}
use trale.Uring.Api.{entries, OpClass, single_shot, multi_shot, Cqe, UringApi, class_of}

pub record Kernel : Type 0 where
  -- the newest fact about an operation comes first
  pub flight : List (ℕ × Option OpClass)
  -- entries of the submission queue
  pub used : ℕ
  pub posted : List Cqe
  -- what the following waits post
  pub script : List (List Cqe)

abbrev pub lookup : List (ℕ × Option OpClass) → ℕ → Option OpClass
lookup [] j = none
lookup ((u, k) ∷ xs) j = if u == j then k else lookup xs j

abbrev pub inflight : Kernel → ℕ → Option OpClass
inflight r j = lookup r.flight j

abbrev pub boot : List (List Cqe) → Kernel
boot script = record { flight = []; used = 0; posted = []; script = script }

abbrev pub push : Kernel → OpClass → ℕ → Option Kernel
push r e u =
    if ltb r.used entries
    then some (record r { flight = (u, some e) ∷ r.flight; used = suc r.used })
    else none

abbrev pub settle : Kernel → Cqe → Kernel
settle r c = if c.more then r else record r { flight = (c.user_data, none) ∷ r.flight }

-- A completion of an operation that is not in flight is passed over.
abbrev pub take : Option OpClass → Cqe → Kernel → Option Cqe × Kernel
take none c r = (none, r)
take (some single_shot) c r =
    (some (record c { more = false }), record r { flight = (c.user_data, none) ∷ r.flight })
take (some multi_shot) c r = (some c, settle r c)

abbrev pub next_of : List Cqe → Kernel → Option Cqe × Kernel
next_of [] r = (none, r)
next_of (c ∷ cs) r = take (inflight r c.user_data) c (record r { posted = cs })

abbrev pub next : Kernel → Option Cqe × Kernel
next r = next_of r.posted r

abbrev pub post_from : List (List Cqe) → Kernel → Kernel
post_from [] r = record r { used = 0 }
post_from (cs ∷ rest) r = record r { used = 0; posted = r.posted ++ cs; script = rest }

abbrev pub if_ready : Option Cqe → Kernel → Option Kernel
if_ready none r = none
if_ready (some c) r = some r

abbrev pub submit_and_wait : Kernel → Option Kernel
submit_and_wait r = if_ready (next (post_from r.script r)).0 (post_from r.script r)

abbrev pub sync_cancel_of : Option OpClass → Kernel → ℕ → Option Kernel
sync_cancel_of none r u = none
sync_cancel_of (some k) r u = some (record r {
  posted = r.posted ++ (record { user_data = u; result = negsuc 124; more = false }) ∷ [];
})

abbrev pub sync_cancel : Kernel → ℕ → Option Kernel
sync_cancel r u = sync_cancel_of (inflight r u) r u

pub inflight-push :
    (r : Kernel) (e : OpClass) (u : ℕ) (q : Kernel) (j : ℕ)
    → push r e u ≡ some q
    → inflight q j ≡ (if u == j then some e else inflight r j)
inflight-push r e u q j h = ground arith

pub if_ready-eq :
    (o : Option Cqe) (r q : Kernel) → if_ready o r ≡ some q → (r ≡ q) × (c : Cqe) × (o ≡ some c)
if_ready-eq none r q h = absurd (cc)
if_ready-eq (some c) r q h = (cc, c, refl)

pub inflight-post_from :
    (s : List (List Cqe)) (r : Kernel) (j : ℕ) → inflight (post_from s r) j ≡ inflight r j
inflight-post_from [] r j = refl
inflight-post_from (cs ∷ rest) r j = refl

pub inflight-submit_and_wait :
    (r q : Kernel) (j : ℕ) → submit_and_wait r ≡ some q → inflight q j ≡ inflight r j
inflight-submit_and_wait r q j h =
    ap (λ k. inflight k j)
      (sym (if_ready-eq (next (post_from r.script r)).0 (post_from r.script r) q h).0)
    ∙ inflight-post_from r.script r j

pub submit_and_wait_ready :
    (r q : Kernel) → submit_and_wait r ≡ some q → (c : Cqe) × ((next q).0 ≡ some c)
submit_and_wait_ready r q h =
    let (e, c, ready) = if_ready-eq (next (post_from r.script r)).0 (post_from r.script r) q h in
    (c, subst (λ k. (next k).0 ≡ some c) e ready)

pub take-some :
    (k : Option OpClass) (d c : Cqe) (r : Kernel)
    → (take k d r).0 ≡ some c
    → (x : OpClass) × (k ≡ some x) × (c.user_data ≡ d.user_data)
take-some none d c r h = absurd (cc)
take-some (some single_shot) d c r h = (single_shot, refl, ground arith)
take-some (some multi_shot) d c r h = (multi_shot, refl, ground arith)

pub next_of_inflight :
    (cs : List Cqe) (r : Kernel) (c : Cqe)
    → (next_of cs r).0 ≡ some c
    → (k : OpClass) × (inflight r c.user_data ≡ some k)
next_of_inflight [] r c h = absurd (cc)
next_of_inflight (d ∷ cs) r c h =
    let (x, found, same) = take-some (inflight r d.user_data) d c (record r { posted = cs }) h in
    (x, ap (inflight r) same ∙ found)

pub next_inflight :
    (r : Kernel) (c : Cqe) → (next r).0 ≡ some c → (k : OpClass) × (inflight r c.user_data ≡ some k)
next_inflight r c h = next_of_inflight r.posted r c h

pub next_single :
    (r : Kernel) (c : Cqe)
    → (next r).0 ≡ some c
    → inflight r c.user_data ≡ some single_shot
    → c.more ≡ false
next_single r c h k = ground arith

pub inflight-next :
    (r : Kernel) (c : Cqe) (j : ℕ)
    → (next r).0 ≡ some c
    → inflight (next r).1 j ≡ (if (c.user_data == j) && not c.more then none else inflight r j)
inflight-next r c j h = ground arith

pub inflight-next_none :
    (r : Kernel) (j : ℕ) → (next r).0 ≡ none → inflight (next r).1 j ≡ inflight r j
inflight-next_none r j h = ground arith

pub inflight-sync_cancel :
    (r : Kernel) (u : ℕ) (q : Kernel) (j : ℕ)
    → sync_cancel r u ≡ some q
    → inflight q j ≡ inflight r j
inflight-sync_cancel r u q j h = ground arith

pub sync_cancel_missing : (r : Kernel) (u : ℕ) → inflight r u ≡ none → sync_cancel r u ≡ none
sync_cancel_missing r u h = ground arith

posted-take : (o : Option OpClass) (d : Cqe) (r : Kernel) → (take o d r).1.posted ≡ r.posted
posted-take none d r = refl
posted-take (some single_shot) d r = refl
posted-take (some multi_shot) d r = ground arith

next_of-shorter :
    (cs : List Cqe) (r : Kernel) (c : Cqe)
    → (next_of cs r).0 ≡ some c
    → length (next_of cs r).1.posted < length cs
next_of-shorter [] r c h = absurd (cc)
next_of-shorter (d ∷ cs) r c h =
    omega (arith, ap length (posted-take (inflight r d.user_data) d (record r { posted = cs })))

pub queued-next :
    (r : Kernel) (c : Cqe) → (next r).0 ≡ some c → length (next r).1.posted < length r.posted
queued-next r c h = next_of-shorter r.posted r c h

pub push_room :
    (r : Kernel) (e : OpClass) (u n : ℕ)
    → entries - r.used ≡ suc n
    → (q : Kernel) × (push r e u ≡ some q)
push_room r e u n h =
    (record r { flight = (u, some e) ∷ r.flight; used = suc r.used }, ground arith)

pub push_full : (r : Kernel) (e : OpClass) (u : ℕ) → entries - r.used ≡ 0 → push r e u ≡ none
push_full r e u h = ground arith

pub room-push :
    (r : Kernel) (e : OpClass) (u : ℕ) (q : Kernel)
    → push r e u ≡ some q
    → entries - r.used ≡ suc (entries - q.used)
room-push r e u q h = ground arith

used-post_from : (s : List (List Cqe)) (r : Kernel) → (post_from s r).used ≡ 0
used-post_from [] r = refl
used-post_from (cs ∷ rest) r = refl

pub room-submit_and_wait : (r q : Kernel) → submit_and_wait r ≡ some q → entries - q.used ≡ entries
room-submit_and_wait r q h =
    let same = (if_ready-eq (next (post_from r.script r)).0 (post_from r.script r) q h).0 in
    omega (arith, ap (λ k. k.used) same, used-post_from r.script r)

used-take : (o : Option OpClass) (d : Cqe) (r : Kernel) → (take o d r).1.used ≡ r.used
used-take none d r = refl
used-take (some single_shot) d r = refl
used-take (some multi_shot) d r = ground arith

used-next_of : (cs : List Cqe) (r : Kernel) → (next_of cs r).1.used ≡ r.used
used-next_of [] r = refl
used-next_of (d ∷ cs) r = used-take (inflight r d.user_data) d (record r { posted = cs })

pub room-next : (r : Kernel) → entries - (next r).1.used ≡ entries - r.used
room-next r = ap (λ n. entries - n) (used-next_of r.posted r)

-- The kernel that boots with a script.
abbrev pub scripted : List (List Cqe) → UringApi
scripted script = record {
  Entry = OpClass;
  Ring = Kernel;
  new = boot script;
  op_class = λ e. e;
  build = class_of;
  op_class-build = λ o. refl;
  push = push;
  submit_and_wait = submit_and_wait;
  next = next;
  sync_cancel = sync_cancel;
  inflight = inflight;
  queued = λ r. length r.posted;
  queued-next = queued-next;
  room = λ r. entries - r.used;
  room-new = refl;
  push_room = push_room;
  push_full = push_full;
  room-push = room-push;
  room-submit_and_wait = room-submit_and_wait;
  room-next = room-next;
  inflight-new = λ j. refl;
  inflight-push = inflight-push;
  inflight-submit_and_wait = inflight-submit_and_wait;
  submit_and_wait_ready = submit_and_wait_ready;
  next_inflight = next_inflight;
  next_single = next_single;
  inflight-next = inflight-next;
  inflight-next_none = inflight-next_none;
  inflight-sync_cancel = inflight-sync_cancel;
  sync_cancel_missing = sync_cancel_missing;
}
