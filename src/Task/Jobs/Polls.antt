-- ===== src/Task/Jobs/Polls.antt =====
-- What the poll of a task does to the reactor: a task that starts, and one whose operation is done.
use trale.Prelude.{
  ℕ, zero, suc, ◌≤◌, ◌≡◌, ◌≢◌, refl, sym, ◌∙◌, Option, none, some, List, [], ◌∷◌, ◌++◌, ret, ℤ,
  arith, ==_refl, ◌==◌, if◌then◌else◌, ap,
}
use trale.Slab.{SlabApi, Changes}
use trale.RingBuffer.{BufferApi}
use trale.Uring.{UringApi, Opcode}
use trale.Reactor.Result.Oneshot.{ResultState, pending, set_to}
use trale.Reactor.Result.Oneshot.Slots as OneshotSlots
use trale.Reactor.Ring.Defs.{oneshot}
use trale.Reactor.Ring.Submit.{submit_io_room}
use trale.Reactor.Io.Value.{IoResult, reactor_value_to_result}
use trale.Reactor.Io.Oneshot
use trale.Reactor.Io.Oneshot.{fresh, submitted, finished}
use trale.Reactor.System.Defs.{System, apply, update}
use trale.Reactor.System.Lanes.{oneshot_slots-eq-some}
use trale.Reactor.System.Invariant.{Inv, Steps-Inv}
use trale.Reactor.System.OneshotSteps.{submit_Steps, take_Steps, idle_Steps}
use trale.Task.Defs.{TaskId}
use trale.Task.Jobs.Defs.{Job, finish, await, Fits, poll_job, go_on, job_after}

job_after-append :
    (whole : Job) (rs : List (IoResult ℤ)) (o : Opcode) (k : IoResult ℤ → Job) (r : IoResult ℤ)
    → job_after whole rs ≡ some (await o k)
    → job_after whole (rs ++ r ∷ []) ≡ some (k r)
unfolding job_after
job_after-append whole [] o k r h =
    let same : whole ≡ await o k = cc in ap (λ j. job_after j (r ∷ [])) same
job_after-append finish (q ∷ rs) o k r h = absurd (cc)
job_after-append (await o' k') (q ∷ rs) o k r h = job_after-append (k' q) rs o k r h

abbrev pub left_over : Option Job → Job
left_over none = finish
left_over (some job) = job

-- The results lead the job from where it was to where it is.
abbrev pub Leads : Job → List (IoResult ℤ) → Option Job → List (IoResult ℤ) → Type 0
Leads job rs rest rs' =
    (whole : Job) → job_after whole rs ≡ some job → job_after whole rs' ≡ some (left_over rest)

module _ ⦃S : SlabApi⦄ ⦃B : BufferApi⦄ ⦃U : UringApi⦄ (a : TaskId) where
  -- The other handles and their slots are as they were, and one entry of the queue at most is used.
  pub record Went (s t : System TaskId) : Type 0 where
    pub inv : Inv t
    pub others : (b : TaskId) → a ≢ b → t.oneshots b ≡ s.oneshots b
    pub slots :
        (b : TaskId) (j : ℕ)
        → a ≢ b
        → s.oneshots b ≡ submitted j
        → S.get t.ring.results.oneshot j ≡ S.get s.ring.results.oneshot j
    pub room : U.room s.ring.uring ≤ suc (U.room t.ring.uring)
    pub multis : t.ring.results.multishot ≡ s.ring.results.multishot

  -- The task has ended and its handle is not in use, or its handle is submitted, and the slot and
  -- the record are there.
  pub data After (n : ℕ) (s t : System TaskId) : Option Job → Type 0 where
    ended :
        t.oneshots a ≡ fresh
        → ((u : ℕ) → S.get t.ring.pending u ≡ S.get s.ring.pending u)
        → After n s t none
    awaits :
        (o : Opcode) (k : IoResult ℤ → Job) (i u : ℕ)
        → Fits n (await o k)
        → t.oneshots a ≡ submitted i
        → S.get t.ring.results.oneshot i ≡ some pending
        → Changes s.ring.pending u
            (some (record { assoc_obj = a; result_slab_idx = i; kind = oneshot }))
            t.ring.pending
        → After n s t (some (await o k))

  abbrev pub PollsTo : ℕ → Job → List (IoResult ℤ) → System TaskId → Type 0
  PollsTo n job rs s =
      (rest : Option Job) × (rs' : List (IoResult ℤ)) × (t : System TaskId) × (poll_job job a rs s
        ≡ ret (rest, rs', t))
      × Went s t
      × After n s t rest
      × Leads job rs rest rs'

  -- The slot of a submitted handle is in use.
  pub held_slot :
      (s : System TaskId) (b : TaskId) (j : ℕ)
      → Inv s
      → s.oneshots b ≡ submitted j
      → (st : ResultState) × (S.get s.ring.results.oneshot j ≡ some st)
  held_slot s b j v held =
      let (e, slot, live) = v.oneshots_kept.handle_slot b j (rw held) in
      let (st, here, same) = oneshot_slots-eq-some (S.get s.ring.results.oneshot j) slot in
      (st, here)

  -- A task with no future polled yet submits its first operation, or ends.
  pub start-PollsTo :
      (n m : ℕ) (job : Job) (rs : List (IoResult ℤ)) (s : System TaskId)
      → Inv s
      → s.oneshots a ≡ fresh
      → Fits n job
      → U.room s.ring.uring ≡ suc m
      → PollsTo n job rs s
  unfolding poll_job apply Oneshot.submit_or_get_result Oneshot.poll_of go_on
  start-PollsTo n m finish rs s v held fits room = (
    none,
    rs,
    s,
    refl,
    record {
      inv = v;
      others = λ b e. refl;
      slots = λ b j e p. refl;
      room = omega arith;
      multis = refl;
    },
    ended held (λ u. refl),
    λ whole h. h,
  )
  start-PollsTo zero m (await o k) rs s v held fits room = absurd fits
  start-PollsTo (suc n) m (await o k) rs s v held fits room =
      let (u, i, q, eq, sub) = submit_io_room s.ring (U.build o) a oneshot m room in
      (
        some (await o k),
        rs,
        _,
        rw (held, eq, ==_refl a) refl,
        record {
          inv =
              Steps-Inv
                (submit_Steps s v a (U.build o) a u i q (U.op_class-build o ∙ fits.0) held sub) v;
          others = λ b e. ground arith;
          slots = λ b j e p.
              let (st, here) = held_slot s b j v p in
              ground (arith, sub.created.1 j, sub.created.0);
          room = omega (arith, sub.room_taken);
          multis = sub.created.2;
        },
        awaits o k i u fits (rw (==_refl a)) (ground (arith, sub.created.1 i)) sub.recorded,
        λ whole h. h,
      )

  -- The result is taken, and the handle is dropped.
  record Takes (s t : System TaskId) (i : ℕ) : Type 0 where
    inv : Inv t
    handles : (b : TaskId) → t.oneshots b ≡ (if a == b then fresh else s.oneshots b)
    taken : Changes s.ring.results.oneshot i none t.ring.results.oneshot
    pending_same : t.ring.pending ≡ s.ring.pending
    ring_same : t.ring.uring ≡ s.ring.uring
    multis : t.ring.results.multishot ≡ s.ring.results.multishot

  poll-Takes :
      (s : System TaskId) (o : Opcode) (k : IoResult ℤ → Job) (rs : List (IoResult ℤ)) (i : ℕ)
      (c : ℤ)
      → Inv s
      → s.oneshots a ≡ submitted i
      → S.get s.ring.results.oneshot i ≡ some (set_to c)
      → (t : System TaskId) × (poll_job (await o k) a rs s
          ≡ poll_job (k (reactor_value_to_result c)) a (rs ++ reactor_value_to_result c ∷ []) t)
        × Takes s t i
  unfolding poll_job go_on apply Oneshot.submit_or_get_result Oneshot.poll_of Oneshot.drop
  poll-Takes s o k rs i c v held slot =
      let (st, eq, ch) = OneshotSlots.get_result_set s.ring.results.oneshot i c slot in
      let q = record (s.ring) { results = record (s.ring.results) { oneshot = st } } in
      let s1 : System TaskId = record s { ring = q; oneshots = update s.oneshots a (finished c) } in
      let v1 : Inv s1 = Steps-Inv (take_Steps s v a i c st held slot ch) v in
      let t : System TaskId = record s1 { oneshots = update s1.oneshots a fresh } in
      (
        t,
        rw (held, eq, ==_refl a) (rw (==_refl a) refl),
        record {
          inv = Steps-Inv (idle_Steps s1 v1 a fresh (rw (==_refl a))) v1;
          handles = λ b. ground arith;
          taken = ch;
          pending_same = refl;
          ring_same = refl;
          multis = refl;
        },
      )

  After-same :
      (s t u : System TaskId) {n : ℕ} (rest : Option Job)
      → t.ring.pending ≡ s.ring.pending
      → After n t u rest
      → After n s u rest
  After-same s t u none e (ended f g) = ended f (λ j. rw (sym e) (g j))
  After-same s t u (some job) e (awaits o k i w fits held slot ch) =
      awaits o k i w fits held slot (λ j. rw (sym e) (ch j))

  -- From there on the rest of the task is polled.
  Takes-PollsTo :
      (n : ℕ) (job job' : Job) (rs rs' : List (IoResult ℤ)) (s t : System TaskId) (i : ℕ)
      → Inv s
      → s.oneshots a ≡ submitted i
      → poll_job job a rs s ≡ poll_job job' a rs' t
      → ((whole : Job) → job_after whole rs ≡ some job → job_after whole rs' ≡ some job')
      → Takes s t i
      → PollsTo n job' rs' t
      → PollsTo n job rs s
  Takes-PollsTo n job job' rs rs' s t i v held same steps took
        (rest, us, u, eq, went, after, leads) =
      (
        rest,
        us,
        u,
        same ∙ eq,
        record {
          inv = went.inv;
          others = λ b e. ground (arith, went.others b e, took.handles b);
          slots = λ b j e p.
              let p' : t.oneshots b ≡ submitted j = ground (arith, took.handles b) in
              went.slots b j e p'
              ∙ ground (arith, took.taken j, v.oneshots_kept.handle_unique a b j);
          room = omega (arith, went.room, ap (U.room) took.ring_same);
          multis = went.multis ∙ took.multis;
        },
        After-same s t u rest took.pending_same after,
        λ whole h. leads whole (steps whole h),
      )

  -- A task whose operation is done goes on with its result.
  pub resume-PollsTo :
      (n m : ℕ) (o : Opcode) (k : IoResult ℤ → Job) (rs : List (IoResult ℤ)) (s : System TaskId)
      (i : ℕ) (c : ℤ)
      → Inv s
      → s.oneshots a ≡ submitted i
      → S.get s.ring.results.oneshot i ≡ some (set_to c)
      → Fits (suc n) (await o k)
      → U.room s.ring.uring ≡ suc m
      → PollsTo n (await o k) rs s
  resume-PollsTo n m o k rs s i c v held slot fits room =
      let r = reactor_value_to_result c in
      let (t, same, took) = poll-Takes s o k rs i c v held slot in
      let new : t.oneshots a ≡ fresh = took.handles a ∙ rw (==_refl a) in
      Takes-PollsTo n (await o k) (k r) rs (rs ++ r ∷ []) s t i v held same
        (λ whole h. job_after-append whole rs o k r h) took
        (start-PollsTo n m (k r) (rs ++ r ∷ []) t took.inv new (fits.1 r)
          (ap U.room took.ring_same ∙ room))
