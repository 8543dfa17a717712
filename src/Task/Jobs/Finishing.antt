-- ===== src/Task/Jobs/Finishing.antt =====
-- `executor_loop` over the reactor, from the spawns to the end.
use trale.Prelude.{
  ℕ, suc, ◌+◌, ◌*◌, ◌-◌, ◌≤◌, ◌<◌, ◌≡◌, ◌≢◌, refl, sym, subst, ◌∙◌, inl, inr, true, none, some,
  Option-cases, List, [], ◌∷◌, ret, arith, length,
}
use trale.Slab.{SlabApi}
use trale.RingBuffer.{BufferApi}
use trale.Uring.{UringApi, entries}
use trale.Reactor.Result.{no_results}
use trale.Reactor.Result
use trale.Reactor.Ring.Defs
use trale.Reactor.Lane.Keeps.{quiet_slots}
use trale.Reactor.Io.Oneshot
use trale.Reactor.Io.Oneshot.{IoState, fresh, submitted}
use trale.Reactor.System.Defs.{System, boot}
use trale.Reactor.System.Lanes.{oneshot_handle, oneshot_free}
use trale.Reactor.System.Safety.{boot-Inv}
use trale.Task.Defs.{Task, TaskId, Executor, executor_loop, new, spawn}
use trale.Task.Wakes.{live}
use trale.Task.Invariant.{spawn-Inv}
use trale.Task.Somewhere.{live-Somewhere}
use trale.Task.Termination.{executor_loop_returns}
use trale.Task.Jobs.Defs.{
  Job, Fits, AllFit, World, poll, react, spawn_all, start, job_after, finish,
}
use trale.Task.Jobs.Following.{job_at, start-Follows, over-Follows}
use trale.Task.Jobs.Fair.{Fair, starts}
use trale.Task.Jobs.Turns.{Good, work, keep, total-const}
use trale.Task.Jobs.Draining.{Serves, progress}

module _ ⦃S : SlabApi⦄ ⦃B : BufferApi⦄ ⦃U : UringApi⦄ where
  -- Nothing is left once no task is.
  pub record Clean (s : System TaskId) : Type 0 where
    pub no_records : (u : ℕ) → S.get s.ring.pending u ≡ none
    pub no_flight : (u : ℕ) → U.inflight s.ring.uring u ≡ none
    pub no_slots : no_results s.ring.results ≡ true

module _ ⦃S : SlabApi⦄ ⦃B : BufferApi⦄ ⦃U : UringApi⦄ (m : ℕ) where
  -- at the start no task has been polled
  abbrev IsStart : Executor Job → Type 0
  IsStart x = Fair m x.next_id boot (λ a. 0) x × (S.len x.waiting ≡ 0)

  new-IsStart : IsStart new
  unfolding new boot Defs.new Result.new
  new-IsStart = (
    record {
      tasks = record {
        cells = λ k t p. absurd (cc (S.get-new {A = Task Job} k));
        apart = λ k t p. absurd (cc (S.get-new {A = Task Job} k));
        distinct = tt;
        old_waiting = λ k t p. absurd (cc (S.get-new {A = Task Job} k));
        old_queued = tt;
      };
      system = boot-Inv boot refl;
      no_multis = S.len-new;
      ids = refl;
      queued = tt;
      waits = λ k t p. absurd (cc (S.get-new {A = Task Job} k));
      recorded = λ u io p. absurd (cc (S.get-new {A = Defs.PendingIo TaskId} u));
      owned = λ h i p. absurd (cc);
    },
    S.len-new,
  )

  spawn-IsStart : (x : Executor Job) (j : Job) → Fits m j → IsStart x → IsStart (spawn x j)
  unfolding spawn boot Defs.new Result.new
  spawn-IsStart x j fits (v, none_waiting) = (
    record {
      tasks = spawn-Inv x j v.tasks;
      system = v.system;
      no_multis = v.no_multis;
      ids = refl;
      queued = (starts m refl fits (omega arith), v.queued);
      waits = λ k u g. v.waits k u g;
      recorded = λ u io p. absurd (cc (S.get-new {A = Defs.PendingIo TaskId} u));
      owned = λ h i p. absurd (cc);
    },
    none_waiting,
  )

  spawn_all-IsStart :
      (x : Executor Job) (js : List Job)
      → AllFit m js
      → IsStart x
      → IsStart (spawn_all x js)
        × ((spawn_all x js).next_id ≡ x.next_id + length js)
        × (length (spawn_all x js).run_q ≡ length x.run_q + length js)
  unfolding spawn_all spawn
  spawn_all-IsStart x [] fits v = (v, omega arith, omega arith)
  spawn_all-IsStart x (j ∷ js) fits v =
      let (v', ids, len) = spawn_all-IsStart (spawn x j) js fits.1 (spawn-IsStart x j fits.0 v) in
      (v', omega (arith, ids), omega (arith, len))

  spawned-Good :
      (jobs : List Job)
      → AllFit m jobs
      → length jobs ≤ entries
      → let x = spawn_all new jobs in
        Good m (length jobs) (job_at jobs) x start × (live x ≡ length jobs)
  unfolding start new boot Defs.new
  spawned-Good jobs fits few =
      let ((v, none_waiting), ids, len) = spawn_all-IsStart new jobs fits new-IsStart in
      (
        record {
          fair = subst (λ n. Fair m n boot (λ a. 0) (spawn_all new jobs)) (omega (arith, ids)) v;
          follow = start-Follows jobs;
          space = omega (arith, U.room-new, len);
          few = omega (arith, none_waiting, len);
          calm = refl;
          bounded = λ a. omega arith;
        },
        omega (arith, none_waiting, len),
      )

  over-Clean :
      (n : ℕ) (s : System TaskId) (polls : TaskId → ℕ) (x : Executor Job)
      → Fair m n s polls x
      → live x ≡ 0
      → Clean s
  unfolding no_results
  over-Clean n s polls x v over =
      let no_records : (u : ℕ) → S.get s.ring.pending u ≡ none = λ u.
        elim (Option-cases (S.get s.ring.pending u)) [
          | inl e ↦ e
          | inr (io, found) ↦
              let (t, waiting, named, held, one) = v.recorded u io found in
              absurd (cc (waiting, S.get_of_len x.waiting (x.ids io.assoc_obj) (omega arith)))
        ] in
      let no_flight : (u : ℕ) → U.inflight s.ring.uring u ≡ none = λ u.
        elim (Option-cases (U.inflight s.ring.uring u)) [
          | inl e ↦ e
          | inr (k, flew) ↦
              let (io, found, class) = v.system.links.linked u k flew in
              absurd (cc (found, no_records u))
        ] in
      let no_handles : (h : ℕ) → oneshot_handle (s.oneshots h) ≡ none = λ h.
        unheld (s.oneshots h)
          λ i held. live-Somewhere (λ (t : Task Job). t.id ≡ h) x (v.owned h i held) over in
      let no_oneshots : S.len s.ring.results.oneshot ≡ 0 = S.len_of_get s.ring.results.oneshot λ i.
        oneshot_free (S.get s.ring.results.oneshot i)
          (quiet_slots _ v.system.oneshots_kept (λ u. rw (no_flight u)) no_handles i) in
      record {
        no_records = no_records;
        no_flight = no_flight;
        no_slots = rw (no_oneshots, v.no_multis);
      }
    where
      unheld : (st : IoState) → ((i : ℕ) → ¬ (st ≡ submitted i)) → oneshot_handle st ≡ none
      unheld fresh h = refl
      unheld (submitted i) h = absurd (h i refl)
      unheld (Oneshot.IoState.finished r) h = refl

  work-start : (n : ℕ) → work m n start ≤ n * suc m
  unfolding start
  work-start n = total-const n (suc m) (λ a. suc m - 0) (λ a. omega arith)

  -- Let a wait of the ring return whenever an operation is in flight, and spawn at least one and
  -- at most 1024 tasks, each of which awaits at most m operations of one completion each, one
  -- after the other, whatever their results. Then the executor's loop over the reactor, with more
  -- fuel than m + 1 for each task, returns, and nothing has panicked: no wakeup was lost, since
  -- all tasks have ended; no task was polled more than m + 1 times; the results that each was
  -- given lead its job, as it was spawned, to the end; no operation is in flight, and no record
  -- of one and no result is left.
  pub executor_loop_finishes :
      (jobs : List Job) (fuel : ℕ)
      → Serves
      → AllFit m jobs
      → length jobs ≢ 0
      → length jobs ≤ entries
      → length jobs * suc m < fuel
      → (y : Executor Job) × (w : World) × (executor_loop poll react fuel (spawn_all new jobs) start
          ≡ ret (some (y, w)))
        × (live y ≡ 0)
        × (w.panicked ≡ none)
        × ((a : TaskId) → w.polls a ≤ suc m)
        × ((a : TaskId) → a < length jobs → job_after (job_at jobs a) (w.answers a) ≡ some finish)
        × Clean w.system
  executor_loop_finishes jobs fuel serves fits some_job few enough =
      let n = length jobs in
      let x : Executor Job = spawn_all new jobs in
      let (good, size) = spawned-Good jobs fits few in
      let (y, w, eq, over, last) =
        executor_loop_returns poll react (work m n) (Good m n (job_at jobs))
          (λ x task rest w popped g. keep m n (job_at jobs) x task rest w popped g)
          (λ x w idle some_live g. progress m n serves x w idle some_live (job_at jobs) g) fuel x
          start (λ e. some_job (sym size ∙ e)) good (omega (arith, work-start n, enough)) in
      (
        y,
        w,
        eq,
        over,
        last.calm,
        last.bounded,
        over-Follows (job_at jobs) n w.answers y last.follow over,
        over-Clean n w.system w.polls y last.fair over,
      )
