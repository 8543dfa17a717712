-- ===== src/Task/Jobs/Fair.antt =====
-- What holds of the executor, the reactor and the handles between two turns: every task is queued
-- and has something to do, or waits for an operation whose record holds its waker.
use trale.Prelude.{ℕ, suc, ◌+◌, ◌≤◌, ◌≡◌, ◌≢◌, sym, ◌∙◌, some, List, [], ◌∷◌, ℤ, arith}
use trale.Slab.{SlabApi}
use trale.RingBuffer.{BufferApi}
use trale.Uring.{UringApi, Opcode}
use trale.Reactor.Result.Oneshot.{ResultState, pending, set_to}
use trale.Reactor.Ring.Defs.{PendingIo, oneshot}
use trale.Reactor.Io.Value.{IoResult}
use trale.Reactor.Io.Oneshot.{fresh, submitted}
use trale.Reactor.System.Defs.{System}
use trale.Reactor.System.Invariant as System
use trale.Task.Defs.{Task, TaskId, Executor}
use trale.Task.Invariant as Tasks
use trale.Task.Invariant.{Absent}
use trale.Task.Somewhere.{Somewhere}
use trale.Task.Jobs.Defs.{Job, await, Fits, counted}
use trale.Task.Jobs.Polls.{Went}

abbrev pub All : {A : Type 0} → (A → Type 0) → List A → Type 0
All P [] = Unit {0}
All P (x ∷ xs) = P x × All P xs

pub All-map :
    {A : Type 0} {P Q : A → Type 0} → ((x : A) → P x → Q x) → (xs : List A) → All P xs → All Q xs
All-map f [] h = tt
All-map f (x ∷ xs) h = (f x h.0, All-map f xs h.1)

-- `m` bounds the operations of each task.
module _ ⦃S : SlabApi⦄ ⦃B : BufferApi⦄ ⦃U : UringApi⦄ (m : ℕ) where
  module _ (s : System TaskId) (polls : TaskId → ℕ) where
    -- The task awaits an operation, in whose slot there is `st`.
    pub record Awaits (st : ResultState) (t : Task Job) : Type 0 where
      pub opcode : Opcode
      pub continue : IoResult ℤ → Job
      pub idx : ℕ
      pub left : ℕ
      pub future : t.future ≡ await opcode continue
      pub held : s.oneshots t.id ≡ submitted idx
      pub slot : S.get s.ring.results.oneshot idx ≡ some st
      pub fits : Fits (suc left) (await opcode continue)
      pub budget : polls t.id + suc left ≤ suc m

    pub data Ready (t : Task Job) : Type 0 where
      starts :
          (left : ℕ)
          → s.oneshots t.id ≡ fresh
          → Fits left t.future
          → polls t.id + suc left ≤ suc m
          → Ready t
      resumes : (c : ℤ) → Awaits (set_to c) t → Ready t

  -- `n` is the number of tasks.
  module _ (n : ℕ) (s : System TaskId) (polls : TaskId → ℕ) where
    pub record Fair (x : Executor Job) : Type 0 where
      pub tasks : Tasks.Inv x
      pub system : System.Inv s
      pub no_multis : S.len s.ring.results.multishot ≡ 0
      pub ids : x.next_id ≡ n
      pub queued : All (Ready s polls) x.run_q
      pub waits : (k : ℕ) (t : Task Job) → S.get x.waiting k ≡ some t → Awaits s polls pending t
      pub recorded :
          (u : ℕ) (io : PendingIo TaskId)
          → S.get s.ring.pending u ≡ some io
          → (t : Task Job) × (S.get x.waiting (x.ids io.assoc_obj) ≡ some t)
            × (t.id ≡ io.assoc_obj)
            × (s.oneshots io.assoc_obj ≡ submitted io.result_slab_idx)
            × (io.kind ≡ oneshot)
      pub owned : (h i : ℕ) → s.oneshots h ≡ submitted i → Somewhere (λ (t : Task Job). t.id ≡ h) x

  -- A task whose handle and slot are as they were.
  module _ (s t : System TaskId) (polls polls' : TaskId → ℕ) (task : Task Job)
      (same : t.oneshots task.id ≡ s.oneshots task.id)
      (unpolled : polls' task.id ≡ polls task.id) where
    pub Awaits-move :
        (st : ResultState) (w : Awaits s polls st task)
        → S.get t.ring.results.oneshot w.idx ≡ S.get s.ring.results.oneshot w.idx
        → Awaits t polls' st task
    Awaits-move st w kept = record {
      opcode = w.opcode;
      continue = w.continue;
      idx = w.idx;
      left = w.left;
      future = w.future;
      held = same ∙ w.held;
      slot = kept ∙ w.slot;
      fits = w.fits;
      budget = omega (arith, w.budget, unpolled);
    }

    pub Ready-move :
        ((c : ℤ) (w : Awaits s polls (set_to c) task)
          → S.get t.ring.results.oneshot w.idx ≡ S.get s.ring.results.oneshot w.idx)
        → Ready s polls task
        → Ready t polls' task
    Ready-move kept (starts left new fits budget) =
        starts left (same ∙ new) fits (omega (arith, budget, unpolled))
    Ready-move kept (resumes c w) = resumes c (Awaits-move (set_to c) w (kept c w))

  -- What a poll of task `a` does to the others.
  module _ (s t : System TaskId) (polls : TaskId → ℕ) (a : TaskId) (went : Went a s t) where
    counted_other : (b : TaskId) → a ≢ b → counted polls a b ≡ polls b
    counted_other b other = ground (arith, other)

    pub Awaits-other :
        (st : ResultState) (task : Task Job)
        → a ≢ task.id
        → Awaits s polls st task
        → Awaits t (counted polls a) st task
    Awaits-other st task other w =
        Awaits-move s t polls (counted polls a) task (went.others task.id other)
          (counted_other task.id other) st w (went.slots task.id w.idx other w.held)

    pub All-other :
        (ts : List (Task Job))
        → Absent a ts
        → All (Ready s polls) ts
        → All (Ready t (counted polls a)) ts
    All-other [] away h = tt
    All-other (task ∷ ts) away h =
        let other : a ≢ task.id = λ e. away.0 (sym e) in
        (
          Ready-move s t polls (counted polls a) task (went.others task.id other)
              (counted_other task.id other) (λ c w. went.slots task.id w.idx other w.held) h.0,
          All-other ts away.1 h.1,
        )
