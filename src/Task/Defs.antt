-- ===== src/Task/Defs.antt =====
-- `TaskId`, `Task`, `Executor` and the body of `executor_loop` in src/task.rs. Futures and the world
-- that they act on are parameters: a poll may spawn tasks and wake wakers before it answers.
use trale.Prelude.{
  ℕ, zero, suc, Bool, true, false, ◌&&◌, Option, none, some, List, [], ◌∷◌, ◌==◌, if◌then◌else◌,
  Outcome, ret, Panic, ◌>>=◌, unwrap,
}
use trale.Slab.{SlabApi, Slab, is_empty}

-- The cell of a `TaskId`, by its address: wakers share the cell with the task.
abbrev pub TaskId : Type 0
TaskId = ℕ

pub record Task (F : Type 0) : Type 0 where
  pub id : TaskId
  pub future : F

-- What a poll does to the executor before it returns.
pub data Effect (F : Type 0) : Type 0 where
  spawns : F → Effect F
  wakes : TaskId → Effect F

-- `none` is `Poll::Ready(())`.
pub record Polled (F W : Type 0) : Type 0 where
  pub effects : List (Effect F)
  pub world : W
  pub rest : Option F

abbrev pub vec_is_empty {ℓ} : {A : Type ℓ} → List A → Bool
vec_is_empty [] = true
vec_is_empty (x ∷ xs) = false

module _ ⦃S : SlabApi⦄ where
  -- The head of `run_q` is the end of the vector. `ids` holds the cells, of which those below
  -- `next_id` are allocated.
  pub record Executor (F : Type 0) : Type 0 where
    pub waiting : Slab (Task F)
    pub run_q : List (Task F)
    pub ids : TaskId → ℕ
    pub next_id : TaskId

  unfoldable pub new : {F : Type 0} → Executor F
  new = record { waiting = S.new; run_q = []; ids = λ a. 0; next_id = 0 }

  -- the `if let` of `wake`
  abbrev pub push_woken : {F : Type 0} → Executor F → Option (Task F) → Executor F
  push_woken x none = x
  push_woken x (some task) = record x { run_q = task ∷ x.run_q }

  -- `Wake::wake` for `TaskId`
  unfoldable pub wake : {F : Type 0} → Executor F → TaskId → Executor F
  wake x a =
      let (task, waiting) = S.try_remove x.waiting (x.ids a) in
      push_woken (record x { waiting = waiting }) task

  unfoldable pub wake_all : {F : Type 0} → Executor F → List TaskId → Executor F
  wake_all x [] = x
  wake_all x (a ∷ as') = wake_all (wake x a) as'

  abbrev pub store : (TaskId → ℕ) → TaskId → ℕ → TaskId → ℕ
  store ids a key b = if a == b then key else ids b

  -- the part of `spawn` that makes the task and queues it
  unfoldable pub spawn : {F : Type 0} → Executor F → F → Executor F
  spawn x f = record x {
    run_q = (record { id = x.next_id; future = f }) ∷ x.run_q;
    ids = store x.ids x.next_id 0;
    next_id = suc x.next_id;
  }

  unfoldable pub act : {F : Type 0} → Executor F → Effect F → Executor F
  unfolding spawn wake
  act x (spawns f) = spawn x f
  act x (wakes a) = wake x a

  unfoldable pub act_all : {F : Type 0} → Executor F → List (Effect F) → Executor F
  act_all x [] = x
  act_all x (e ∷ es) = act_all (act x e) es

  -- the `Poll::Pending` branch: the task waits under a new key, which its cell then holds
  unfoldable pub park : {F : Type 0} → Executor F → TaskId → F → Executor F
  park x a f = record x {
    ids = store x.ids a (S.vacant_key x.waiting);
    waiting = (S.insert x.waiting (record { id = a; future = f })).1;
  }

  abbrev pub settle : {F : Type 0} → Executor F → TaskId → Option F → Executor F
  settle x a none = x
  settle x a (some f) = park x a f

  abbrev pub is_finished : {F : Type 0} → Executor F → Bool
  is_finished x = vec_is_empty x.run_q && is_empty x.waiting

  pop : {F : Type 0} → List (Task F) → Option (Task F × List (Task F))
  pop [] = none
  pop (task ∷ rest) = some (task, rest)

  module _ {F W : Type 0} (poll : F → TaskId → W → Polled F W)
      (react : W → Outcome (List TaskId × W)) where
    -- `Reactor::react`, when the run queue is empty
    unfoldable pub fill : Executor F → W → Outcome (Executor F × W)
    fill x w =
        if vec_is_empty x.run_q
        then (do (wakers, w') ← react w; ret (wake_all x wakers, w'))
        else ret (x, w)

    unfoldable pub run_task : Executor F → Task F → W → Executor F × W
    run_task x task w =
        let p = poll task.future task.id w in (settle (act_all x p.effects) task.id p.rest, p.world)

    -- the next task off the run queue, polled
    unfoldable pub poll_next : Executor F → W → Outcome (Executor F × W)
    unfolding pop
    poll_next x w = do
      (task, rest) ← unwrap Panic.no_task (pop x.run_q)
      ret (run_task (record x { run_q = rest }) task w)

    unfoldable pub turn : Executor F → W → Outcome (Executor F × W)
    turn x w = do (y, w') ← fill x w; poll_next y w'

    -- `executor_loop`; `none` means that the fuel ran out.
    unfoldable pub executor_loop : ℕ → Executor F → W → Outcome (Option (Executor F × W))
    executor_loop zero x w = ret none
    executor_loop (suc n) x w = do
      (y, w') ← turn x w
      let rest = executor_loop n y w'
      if is_finished y then ret (some (y, w')) else rest
