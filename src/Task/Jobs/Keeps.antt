-- ===== src/Task/Jobs/Keeps.antt =====
-- A turn that polls a queued task: everything that is to hold between two turns holds after it.
use trale.Prelude.{
  ℕ, zero, suc, ℤ, ◌+◌, ◌≤◌, ◌≡◌, ◌≢◌, refl, sym, ap, subst, ◌∙◌, inl, inr, eq_cases, Option, none,
  some, List, ◌∷◌, arith, ==_refl,
}
use trale.Slab.{SlabApi}
use trale.RingBuffer.{BufferApi}
use trale.Uring.{UringApi, Opcode}
use trale.Reactor.Result.Oneshot.{pending}
use trale.Reactor.Ring.Defs.{PendingIo, oneshot}
use trale.Reactor.Io.Value.{IoResult}
use trale.Reactor.Io.Oneshot.{submitted}
use trale.Reactor.System.Defs.{System}
use trale.Task.Defs.{Task, TaskId, Executor, settle, park}
use trale.Task.Invariant as Tasks
use trale.Task.Invariant.{Away, pop-keeps, settle-Inv, Absent}
use trale.Task.Somewhere.{Somewhere, pop-Somewhere, park_there, settle-Somewhere}
use trale.Task.Jobs.Defs.{Job, await, Fits, counted}
use trale.Task.Jobs.Polls.{Went, After, ended, awaits, PollsTo, start-PollsTo, resume-PollsTo}
use trale.Task.Jobs.Fair.{All, Awaits, Ready, starts, resumes, Fair, Awaits-other, All-other}

left_of : (o : Opcode) (k : IoResult ℤ → Job) (l : ℕ) → Fits l (await o k) → (l' : ℕ) × (l ≡ suc l')
left_of o k zero h = absurd h
left_of o k (suc l) h = (l, refl)

module _ ⦃S : SlabApi⦄ ⦃B : BufferApi⦄ ⦃U : UringApi⦄ (m n : ℕ) (x : Executor Job) (task : Task Job)
    (rest : List (Task Job)) (s : System TaskId) (polls : TaskId → ℕ)
    (popped : x.run_q ≡ task ∷ rest) (v : Fair m n s polls x) where
  abbrev pub a : TaskId
  a = task.id

  -- the executor while the task is polled
  abbrev pub y : Executor Job
  y = record x { run_q = rest }

  pub away : Tasks.Inv y × Away y a
  away = pop-keeps x task rest popped v.tasks

  queued-All : All (Ready m s polls) (task ∷ rest)
  queued-All = subst (All (Ready m s polls)) popped v.queued

  -- The head of the queue has something to do.
  pub polled :
      (r : ℕ) (rs : List (IoResult ℤ))
      → U.room s.ring.uring ≡ suc r
      → (left : ℕ) × PollsTo a left task.future rs s × (polls a + suc left ≤ suc m)
  polled r rs room = from queued-All.0
    where
      from :
          Ready m s polls task
          → (left : ℕ) × PollsTo a left task.future rs s × (polls a + suc left ≤ suc m)
      from (starts left new fits budget) =
          (left, start-PollsTo a left r task.future rs s v.system new fits room, budget)
      from (resumes c w) = (
        w.left,
        subst (λ f. PollsTo a w.left f rs s) (sym w.future)
            (resume-PollsTo a w.left r w.opcode w.continue rs s w.idx c v.system w.held w.slot
              w.fits room),
        w.budget,
      )

  still_there :
      (h i : ℕ) → a ≢ h → s.oneshots h ≡ submitted i → Somewhere (λ (t : Task Job). t.id ≡ h) y
  still_there h i other held =
      pop-Somewhere (λ (t : Task Job). t.id ≡ h) x task rest popped other (v.owned h i held)

  module _ (t : System TaskId) (left : ℕ) (budget : polls a + suc left ≤ suc m)
      (went : Went a s t) where
    ended-Fair : After a left s t none → Fair m n t (counted polls a) y
    ended-Fair (ended new same) = record {
      tasks = away.0;
      system = went.inv;
      no_multis = ap S.len went.multis ∙ v.no_multis;
      ids = v.ids;
      queued = All-other m s t polls a went rest away.1.not_queued queued-All.1;
      waits = λ k u g.
          Awaits-other m s t polls a went pending u (λ e. away.1.not_waiting k u g (sym e))
            (v.waits k u g);
      recorded = λ u io p.
          let (w, found, named, held, one) = v.recorded u io (sym (same u) ∙ p) in
          let other : a ≢ io.assoc_obj =
            λ e. away.1.not_waiting (x.ids io.assoc_obj) w found (named ∙ sym e) in
          (w, found, named, went.others io.assoc_obj other ∙ held, one);
      owned = λ h i held. elim (eq_cases a h) [
        | inl same_id ↦ absurd (cc)
        | inr other ↦ still_there h i other (sym (went.others h other) ∙ held)
      ];
    }

    -- The task that awaits an operation is parked.
    parked-Awaits :
        (job : Job)
        → After a left s t (some job)
        → Awaits m t (counted polls a) pending (record { id = a; future = job })
    parked-Awaits job (awaits o k i u fits held slot ch) =
        let (l, e) = left_of o k left fits in
        record {
          opcode = o;
          continue = k;
          idx = i;
          left = l;
          future = refl;
          held = held;
          slot = slot;
          fits = subst (λ l. Fits l (await o k)) e fits;
          budget = ground (arith, budget, e);
        }

    parked_waits :
        (job : Job)
        → After a left s t (some job)
        → (k : ℕ) (u : Task Job) → S.get (park y a job).waiting k ≡ some u
        → Awaits m t (counted polls a) pending u
    unfolding park
    parked_waits job after k u g =
        let new : Task Job = record { id = a; future = job } in
        elim (eq_cases (S.vacant_key x.waiting) k) [
          | inl same ↦
              let e : new ≡ u = ground (arith, S.get-insert x.waiting new k) in
              subst (Awaits m t (counted polls a) pending) e (parked-Awaits job after)
          | inr other ↦
              let g' : S.get x.waiting k ≡ some u = ground (arith, S.get-insert x.waiting new k) in
              Awaits-other m s t polls a went pending u (λ e. away.1.not_waiting k u g' (sym e))
                (v.waits k u g')
        ]

    abbrev Recorded : Executor Job → PendingIo TaskId → Type 0
    Recorded z io =
        (w : Task Job) × (S.get z.waiting (z.ids io.assoc_obj) ≡ some w)
        × (w.id ≡ io.assoc_obj)
        × (t.oneshots io.assoc_obj ≡ submitted io.result_slab_idx)
        × (io.kind ≡ oneshot)

    parked-Recorded :
        (job : Job)
        → After a left s t (some job)
        → (u : ℕ) (io : PendingIo TaskId) → S.get t.ring.pending u ≡ some io
        → Recorded (park y a job) io
    unfolding park
    parked-Recorded job (awaits o k i u' fits held slot ch) u io p =
        let new : Task Job = record { id = a; future = job } in
        let there = S.get-insert x.waiting new in
        elim (eq_cases u' u) [
          | inl same ↦
              let e : record { assoc_obj = a; result_slab_idx = i; kind = oneshot } ≡ io =
                ground (arith, ch u) in
              subst (Recorded (park y a job)) e (
                new,
                rw (==_refl a) (ground (arith, there (S.vacant_key x.waiting))),
                refl,
                held,
                refl,
              )
          | inr other ↦
              let p' : S.get s.ring.pending u ≡ some io = ground (arith, ch u) in
              let (w, found, named, held', one) = v.recorded u io p' in
              let apart : a ≢ io.assoc_obj =
                λ e. away.1.not_waiting (x.ids io.assoc_obj) w found (named ∙ sym e) in
              (
                w,
                ground (arith, apart, there (x.ids io.assoc_obj), S.get-vacant x.waiting),
                named,
                went.others io.assoc_obj apart ∙ held',
                one,
              )
        ]

    awaits-Fair :
        (job : Job) → After a left s t (some job) → Fair m n t (counted polls a) (park y a job)
    unfolding park
    awaits-Fair job after = record {
      tasks = settle-Inv y a (some job) away.0 away.1;
      system = went.inv;
      no_multis = ap S.len went.multis ∙ v.no_multis;
      ids = v.ids;
      queued = All-other m s t polls a went rest away.1.not_queued queued-All.1;
      waits = parked_waits job after;
      recorded = parked-Recorded job after;
      owned = λ h i held. elim (eq_cases a h) [
        | inl same_id ↦ park_there (λ (t : Task Job). t.id ≡ h) y a job same_id
        | inr other ↦
            settle-Somewhere (λ (t : Task Job). t.id ≡ h) y a (some job)
              (still_there h i other (sym (went.others h other) ∙ held))
      ];
    }

    pub settle-Fair :
        (o : Option Job) → After a left s t o → Fair m n t (counted polls a) (settle y a o)
    settle-Fair none after = ended-Fair after
    settle-Fair (some job) after = awaits-Fair job after
