-- ===== src/Task/Jobs/Fitting.antt =====
-- About src/task.rs: every task of the executor has a job whose operations post one completion each.
use trale.Prelude.{
  ℕ, ◌≡◌, subst, inl, inr, eq_cases, Option, Option-cases, none, some, List, [], ◌∷◌, arith,
}
use trale.Slab.{SlabApi}
use trale.RingBuffer.{BufferApi}
use trale.Uring.{UringApi}
use trale.Task.Defs.{Task, TaskId, Executor, wake, wake_all, settle, park, spawn, new}
use trale.Task.Wakes.{wake_hit, wake_miss}
use trale.Task.Invariant as Tasks
use trale.Task.Invariant.{spawn-Inv}
use trale.Task.Jobs.Defs.{Job, Fits, AllFit, spawn_all}
use trale.Task.Jobs.Fair.{All}

-- The operations of a job are bounded in number and post one completion each.
abbrev pub IsFit : Job → Type 0
IsFit job = (l : ℕ) × Fits l job

abbrev pub IsRestFit : Option Job → Type 0
IsRestFit none = Unit
IsRestFit (some job) = IsFit job

module _ ⦃S : SlabApi⦄ where
  -- Every task's job fits.
  pub record AreFit (x : Executor Job) : Type 0 where
    pub queued : All (λ t. IsFit t.future) x.run_q
    pub waits : (k : ℕ) (t : Task Job) → S.get x.waiting k ≡ some t → IsFit t.future

  wake-AreFit : (x : Executor Job) (a : TaskId) → AreFit x → AreFit (wake x a)
  wake-AreFit x a v = elim (Option-cases (S.get x.waiting (x.ids a))) [
    | inl missing ↦
        let (q, w, i, n) = wake_miss x a missing in
        record { queued = rw q v.queued; waits = λ k t g. v.waits k t (ground (arith, w k)) }
    | inr (task, found) ↦
        let (q, w, i, n) = wake_hit x a task found in
        record {
          queued = rw q (v.waits (x.ids a) task found, v.queued);
          waits = λ k t g. v.waits k t (ground (arith, w k));
        }
  ]

  pub wake_all-AreFit : (x : Executor Job) (ws : List TaskId) → AreFit x → AreFit (wake_all x ws)
  unfolding wake_all
  wake_all-AreFit x [] v = v
  wake_all-AreFit x (a ∷ ws) v = wake_all-AreFit (wake x a) ws (wake-AreFit x a v)

  pub settle-AreFit :
      (x : Executor Job) (a : TaskId) (o : Option Job)
      → AreFit x
      → IsRestFit o
      → AreFit (settle x a o)
  unfolding park
  settle-AreFit x a none v fit = v
  settle-AreFit x a (some job) v fit = record {
    queued = v.queued;
    waits = λ k t g. elim (eq_cases (S.vacant_key x.waiting) k) [
      | inl same ↦
          let e : record { id = a; future = job } ≡ t =
            ground (arith, S.get-insert x.waiting (record { id = a; future = job }) k) in
          subst (λ (t : Task Job). IsFit t.future) e fit
      | inr other ↦
          v.waits k t (ground (arith, S.get-insert x.waiting (record { id = a; future = job }) k))
    ];
  }

module _ ⦃S : SlabApi⦄ ⦃B : BufferApi⦄ ⦃U : UringApi⦄ where
  abbrev pub Begins : Executor Job → Type 0
  Begins x = Tasks.Inv x × AreFit x

  spawn_all-Begins :
      (m : ℕ) (jobs : List Job) (x : Executor Job)
      → AllFit m jobs
      → Begins x
      → Begins (spawn_all x jobs)
  unfolding spawn_all spawn
  spawn_all-Begins m [] x fit v = v
  spawn_all-Begins m (j ∷ js) x fit v =
      spawn_all-Begins m js (spawn x j) fit.1
        (spawn-Inv x j v.0, record { queued = ((m, fit.0), v.1.queued); waits = v.1.waits })

  pub spawned-Begins : (m : ℕ) (jobs : List Job) → AllFit m jobs → Begins (spawn_all new jobs)
  unfolding new
  spawned-Begins m jobs fit = spawn_all-Begins m jobs new fit (
    record {
      cells = λ k t p. absurd (cc (S.get-new {A = Task Job} k));
      apart = λ k t p. absurd (cc (S.get-new {A = Task Job} k));
      distinct = tt;
      old_waiting = λ k t p. absurd (cc (S.get-new {A = Task Job} k));
      old_queued = tt;
    },
    record { queued = tt; waits = λ k t p. absurd (cc (S.get-new {A = Task Job} k)) },
  )
