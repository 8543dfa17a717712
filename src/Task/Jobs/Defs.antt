-- ===== src/Task/Jobs/Defs.antt =====
-- Tasks that await one-completion operations, one after the other: each awaited future passes an
-- opcode to its oneshot handle, as those of src/futures/ do. The handle of a task's
-- current future is named by the task's identity, and so is its waker.
use trale.Prelude.{
  ℕ, zero, suc, ◌≡◌, Option, none, some, List, [], ◌∷◌, ◌++◌, Outcome, ret, panic, Panic, ◌>>=◌, ℤ,
}
use trale.Slab.{SlabApi}
use trale.RingBuffer.{BufferApi}
use trale.Uring.{UringApi, Opcode, class_of, single_shot}
use trale.Reactor.Io.Value.{Poll, pending, ready, IoResult}
use trale.Reactor.Io.Oneshot.{poll_of}
use trale.Reactor.System.Defs.{System, poll_oneshot, drop_oneshot, apply, update, boot}
use trale.Task.Defs.{TaskId, Executor, Polled, spawn}
use trale.Task.React.{react_all}

-- What a task has still to do: nothing, or to await an operation and to go on with its result.
pub data Job : Type 0 where
  finish : Job
  await : Opcode → (IoResult ℤ → Job) → Job

-- At most so many operations are awaited, whatever their results, and each posts one completion.
abbrev pub Fits : ℕ → Job → Type 0
Fits n finish = Unit {0}
Fits zero (await o k) = ⊥
Fits (suc n) (await o k) = (class_of o ≡ single_shot) × ((r : IoResult ℤ) → Fits n (k r))

-- What is left of a job after some results; `none` if they are too many.
unfoldable pub job_after : Job → List (IoResult ℤ) → Option Job
job_after job [] = some job
job_after finish (r ∷ rs) = none
job_after (await o k) (r ∷ rs) = job_after (k r) rs

abbrev pub AllFit : ℕ → List Job → Type 0
AllFit n [] = Unit {0}
AllFit n (j ∷ js) = Fits n j × AllFit n js

module _ ⦃S : SlabApi⦄ ⦃B : BufferApi⦄ ⦃U : UringApi⦄ where
  abbrev pub Ran : Type 0
  Ran = Outcome (Option Job × List (IoResult ℤ) × System TaskId)

  -- by the answer of the future's poll: the task is pending, or its future is dropped and it goes on
  unfoldable pub go_on :
      Poll (IoResult ℤ)
      → Job
      → (List (IoResult ℤ) → System TaskId → IoResult ℤ → Ran)
      → TaskId
      → List (IoResult ℤ)
      → System TaskId
      → Ran
  go_on pending job rest a rs s = ret (some job, rs, s)
  go_on (ready r) job rest a rs s = do s' ← apply s (drop_oneshot a); rest (rs ++ r ∷ []) s' r

  -- the poll of a task: the poll of the future that it awaits, and on; `rs` are the results so far
  unfoldable pub poll_job : Job → TaskId → List (IoResult ℤ) → System TaskId → Ran
  unfolding go_on
  poll_job finish a rs s = ret (none, rs, s)
  poll_job (await o k) a rs s = do
    s' ← apply s (poll_oneshot a (U.build o) a)
    go_on (poll_of (s'.oneshots a)) (await o k) (λ rs' t r. poll_job (k r) a rs' t) a rs s'

  -- `polls` counts the polls of each task, `answers` are the results that it was given, and `panicked` is set when one panics.
  pub record World : Type 0 where
    pub system : System TaskId
    pub polls : TaskId → ℕ
    pub answers : TaskId → List (IoResult ℤ)
    pub panicked : Option Panic

  abbrev pub counted : (TaskId → ℕ) → TaskId → TaskId → ℕ
  counted polls a = update polls a (suc (polls a))

  unfoldable pub answer : World → TaskId → Ran → Polled Job World
  answer w a (ret (rest, rs, s)) = record {
    effects = [];
    world = record w { system = s; polls = counted w.polls a; answers = update w.answers a rs };
    rest = rest;
  }
  answer w a (panic p) = record {
    effects = [];
    world = record w { panicked = some p };
    rest = none;
  }

  unfoldable pub poll : Job → TaskId → World → Polled Job World
  unfolding answer poll_job
  poll job a w = answer w a (poll_job job a (w.answers a) w.system)

  unfoldable pub react : World → Outcome (List TaskId × World)
  react w = do (ws, s) ← react_all w.system; ret (ws, record w { system = s })

  unfoldable pub spawn_all : Executor Job → List Job → Executor Job
  unfolding spawn
  spawn_all x [] = x
  spawn_all x (j ∷ js) = spawn_all (spawn x j) js

  unfoldable pub start : World
  unfolding boot
  start = record { system = boot; polls = λ a. 0; answers = λ a. []; panicked = none }
