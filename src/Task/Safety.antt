-- ===== src/Task/Safety.antt =====
-- About `executor_loop` of src/task.rs with `Reactor::react` of src/reactor/mod.rs as its reactor,
-- and tasks that await operations: what may panic, in the loop and in the polls.
use trale.Prelude.{
  ℕ, zero, suc, ◌≡◌, refl, subst, ◌++◌, ◌∙◌, inl, inr, Bool-cases, Option, none, some, List, [],
  ◌∷◌, Outcome, ret, panic, ◌>>=◌, Panic, Ends, Ends-bind, Ends-weaken, List-cases, ℤ,
}
use trale.Slab.{SlabApi}
use trale.RingBuffer.{BufferApi}
use trale.Uring.{UringApi}
use trale.Reactor.Io.Value.{IoResult, Poll, pending, ready}
use trale.Reactor.Io.Oneshot.{poll_of}
use trale.Reactor.System.Defs.{System, IsKernelPanic, poll_oneshot, drop_oneshot, apply, boot}
use trale.Reactor.System.Safety.{apply-Safely, boot-Inv}
use trale.Reactor.System.Invariant as Reactor
use trale.Task.Defs.{
  TaskId, Executor, run_task, fill, poll_next, turn, executor_loop, vec_is_empty, is_finished,
  settle, act_all, new,
}
use trale.Task.Invariant as Tasks
use trale.Task.Invariant.{pop-keeps, wake_all-Inv}
use trale.Task.Loop.{fill_idle, fill_queued, poll_next_cons, poll_next_nil, run_task-Inv}
use trale.Task.React.{react_all}
use trale.Task.Reacting.{react_all-Safely}
use trale.Task.Jobs.Defs.{
  Job, finish, await, Fits, AllFit, Ran, go_on, poll_job, World, answer, poll, react, spawn_all,
  start,
}
use trale.Task.Jobs.Fair.{All}
use trale.Task.Jobs.Fitting.{
  IsFit, IsRestFit, AreFit, wake_all-AreFit, settle-AreFit, spawned-Begins,
}

-- What the loop may panic for: the kernel's reasons, and a reactor that has woken no task.
abbrev pub IsLoopPanic : Panic → Type 0
IsLoopPanic Panic.no_task = Unit {0}
IsLoopPanic p = IsKernelPanic p

loop_panic : (p : Panic) → IsKernelPanic p → IsLoopPanic p
loop_panic Panic.vacant_key k = absurd k
loop_panic Panic.dropped_result k = absurd k
loop_panic Panic.no_task k = tt
loop_panic Panic.unreachable k = absurd k
loop_panic Panic.resumed k = absurd k
loop_panic Panic.out_of_bounds k = absurd k
loop_panic Panic.unwrap_failed k = absurd k
loop_panic Panic.queue_full k = tt
loop_panic Panic.submit_failed k = tt
loop_panic Panic.cancel_failed k = tt

-- Nothing has panicked, or for the kernel's reasons.
abbrev pub IsCalm : Option Panic → Type 0
IsCalm none = Unit
IsCalm (some p) = IsKernelPanic p

module _ ⦃S : SlabApi⦄ ⦃B : BufferApi⦄ ⦃U : UringApi⦄ where
  -- What a task's poll leaves: the reactor's invariant, and a job that fits.
  abbrev pub RanWell : Option Job × List (IoResult ℤ) × System TaskId → Type 0
  RanWell x = Reactor.Inv x.2 × IsRestFit x.0

  go_on-Safely :
      (p : Poll (IoResult ℤ)) (job : Job)
      (rest : List (IoResult ℤ) → System TaskId → IoResult ℤ → Ran) (a : TaskId)
      (rs : List (IoResult ℤ)) (s : System TaskId)
      → Reactor.Inv s
      → IsFit job
      → ((rs' : List (IoResult ℤ)) (t : System TaskId) (r : IoResult ℤ)
          → Reactor.Inv t
          → Ends IsKernelPanic RanWell (rest rs' t r))
      → Ends IsKernelPanic RanWell (go_on p job rest a rs s)
  unfolding go_on
  go_on-Safely pending job rest a rs s v fit later = (v, fit)
  go_on-Safely (ready r) job rest a rs s v fit later =
      Ends-bind IsKernelPanic Reactor.Inv RanWell (apply s (drop_oneshot a)) _
        (apply-Safely s (drop_oneshot a) v tt) (λ t w. later (rs ++ r ∷ []) t r w)

  poll_job-Safely :
      (job : Job) (l : ℕ) (a : TaskId) (rs : List (IoResult ℤ)) (s : System TaskId)
      → Fits l job
      → Reactor.Inv s
      → Ends IsKernelPanic RanWell (poll_job job a rs s)
  unfolding poll_job
  poll_job-Safely finish l a rs s fit v = (v, tt)
  poll_job-Safely (await o k) zero a rs s fit v = absurd fit
  poll_job-Safely (await o k) (suc l) a rs s fit v =
      Ends-bind IsKernelPanic Reactor.Inv RanWell (apply s (poll_oneshot a (U.build o) a)) _
        (apply-Safely s (poll_oneshot a (U.build o) a) v (U.op_class-build o ∙ fit.0))
        (λ t w.
          go_on-Safely (poll_of (t.oneshots a)) (await o k) (λ rs' t r. poll_job (k r) a rs' t) a rs
            t w (suc l, fit) (λ rs' t' r w'. poll_job-Safely (k r) l a rs' t' (fit.1 r) w'))

  -- The executor and the reactor keep their invariants, and no poll has panicked for another reason
  -- than the kernel's.
  pub record Sound (p : Executor Job × World) : Type 0 where
    pub tasks : Tasks.Inv p.0
    pub fit : AreFit p.0
    pub system : Reactor.Inv p.1.system
    pub calm : IsCalm p.1.panicked

  abbrev pub Stopped : Option (Executor Job × World) → Type 0
  Stopped none = Unit {0}
  Stopped (some p) = Sound p

  answer-Sound :
      (y : Executor Job) (w : World) (a : TaskId) (ran : Ran)
      → Sound (y, w)
      → Tasks.Inv (settle (act_all y (answer w a ran).effects) a (answer w a ran).rest)
      → Ends IsKernelPanic RanWell ran
      → Sound (
        settle (act_all y (answer w a ran).effects) a (answer w a ran).rest,
        (answer w a ran).world,
      )
  unfolding answer act_all
  answer-Sound y w a (ret (rest, rs, s)) v tasks well = record {
    tasks = tasks;
    fit = settle-AreFit y a rest v.fit well.1;
    system = well.0;
    calm = v.calm;
  }
  answer-Sound y w a (panic p) v tasks well = record {
    tasks = tasks;
    fit = v.fit;
    system = v.system;
    calm = well;
  }

  react-Safely :
      (w : World)
      → Reactor.Inv w.system
      → Ends IsLoopPanic (λ p. Reactor.Inv p.1.system × (p.1.panicked ≡ w.panicked)) (react w)
  unfolding react
  react-Safely w v =
      Ends-bind IsLoopPanic (λ p. Reactor.Inv p.1) _ (react_all w.system) _
        (Ends-weaken (λ p. Reactor.Inv p.1) loop_panic (react_all w.system)
          (react_all-Safely w.system v))
        (λ p v'. (v', refl))

  fill-Ends :
      (x : Executor Job) (w : World) → Sound (x, w) → Ends IsLoopPanic Sound (fill poll react x w)
  fill-Ends x w v = elim (Bool-cases (vec_is_empty x.run_q)) [
    | inl empty ↦ rw (fill_idle poll react x w empty) (
        Ends-bind IsLoopPanic (λ p. Reactor.Inv p.1.system × (p.1.panicked ≡ w.panicked)) Sound
          (react w) _ (react-Safely w v.system)
          (λ p k. record {
            tasks = wake_all-Inv x p.0 v.tasks;
            fit = wake_all-AreFit x p.0 v.fit;
            system = k.0;
            calm = rw k.1 v.calm;
          }))
    | inr queued ↦ rw (fill_queued poll react x w queued) v
  ]

  poll_next-Ends :
      (x : Executor Job) (w : World)
      → Sound (x, w)
      → Ends IsLoopPanic Sound (poll_next poll react x w)
  unfolding run_task poll
  poll_next-Ends x w v = elim (List-cases x.run_q) [
    | inl none_woken ↦ rw (poll_next_nil poll react x w none_woken) tt
    | inr (task, rest, q) ↦
        let (v', away) = pop-keeps x task rest q v.tasks in
        let fits = subst (All (λ t. IsFit t.future)) q v.fit.queued in
        rw (poll_next_cons poll react x task rest w q) (
          answer-Sound (record x { run_q = rest }) w task.id
            (poll_job task.future task.id (w.answers task.id) w.system)
            (record {
              tasks = v';
              fit = record { queued = fits.1; waits = v.fit.waits };
              system = v.system;
              calm = v.calm;
            })
            (run_task-Inv poll react (record x { run_q = rest }) task w v' away)
            (poll_job-Safely task.future fits.0.0 task.id (w.answers task.id) w.system fits.0.1
              v.system))
  ]

  turn-Ends :
      (x : Executor Job) (w : World) → Sound (x, w) → Ends IsLoopPanic Sound (turn poll react x w)
  unfolding turn
  turn-Ends x w v =
      Ends-bind IsLoopPanic Sound Sound (fill poll react x w) _ (fill-Ends x w v)
        (λ p v'. poll_next-Ends p.0 p.1 v')

  -- so many turns of the loop
  unfoldable pub turns : ℕ → Executor Job → World → Outcome (Executor Job × World)
  turns zero x w = ret (x, w)
  turns (suc n) x w = do (y, w') ← turn poll react x w; turns n y w'

  turns-Ends :
      (n : ℕ) (x : Executor Job) (w : World) → Sound (x, w) → Ends IsLoopPanic Sound (turns n x w)
  unfolding turns
  turns-Ends zero x w v = v
  turns-Ends (suc n) x w v =
      Ends-bind IsLoopPanic Sound Sound (turn poll react x w) _ (turn-Ends x w v)
        (λ p v'. turns-Ends n p.0 p.1 v')

  loop-Ends :
      (n : ℕ) (x : Executor Job) (w : World)
      → Sound (x, w)
      → Ends IsLoopPanic Stopped (executor_loop poll react n x w)
  unfolding executor_loop
  loop-Ends zero x w v = tt
  loop-Ends (suc n) x w v =
      Ends-bind IsLoopPanic Sound Stopped (turn poll react x w) _ (turn-Ends x w v) λ p v'.
        elim (Bool-cases (is_finished p.0)) [
          | inl done ↦ rw done v'
          | inr more ↦ rw more (loop-Ends n p.0 p.1 v')
        ]

  -- Spawn any number of tasks, each of which awaits operations of one completion each, one after
  -- the other, a bounded number whatever their results. Then after any number of turns of the
  -- executor's loop over the reactor, and when the loop ends, the executor and the reactor keep
  -- their invariants, and polls of tasks have panicked, if at all, because the submission queue
  -- is full or the kernel refused a call. The loop itself panics, if at all, for these reasons or
  -- because the reactor has woken no task. So nothing panics at a slab key, a stored result or an
  -- unreachable branch.
  pub executor_loop-Ends :
      (m n : ℕ) (jobs : List Job)
      → AllFit m jobs
      → Ends IsLoopPanic Sound (turns n (spawn_all new jobs) start)
        × Ends IsLoopPanic Stopped (executor_loop poll react n (spawn_all new jobs) start)
  unfolding start
  executor_loop-Ends m n jobs fit =
      let (tasks, are_fit) = spawned-Begins m jobs fit in
      let v : Sound (spawn_all new jobs, start) = record {
        tasks = tasks;
        fit = are_fit;
        system = boot-Inv boot refl;
        calm = tt;
      } in
      (turns-Ends n (spawn_all new jobs) start v, loop-Ends n (spawn_all new jobs) start v)
