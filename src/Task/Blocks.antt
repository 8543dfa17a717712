-- ===== src/Task/Blocks.antt =====
-- `Executor::spawn`, `Executor::run` and `Executor::block_on` of src/task.rs: the async block that
-- `spawn` makes, the channel and the event that it shares with the joiner, and the join at the end.
-- All tasks return the same type here; the future inside a block is a parameter.
use trale.Prelude.{
  ℕ, suc, ◌==◌, if◌then◌else◌, Option, none, some, List, Outcome, ret, panic, Panic, ◌>>=◌,
}
use trale.Slab.{SlabApi}
use trale.Libc.{LibcApi, World}
use trale.Reactor.Io.Value.{IoResult, okay, fail}
use trale.Futures.Events.{Event}
use trale.Futures.Events
use trale.Task.Defs.{TaskId, Executor, Effect, Polled, spawn, executor_loop}
use trale.Task.Join.{Channel, sync_channel, TaskJoiner, finish, join}

-- The block between its polls: the future, the event's clone, and the channel that `tx` sends to.
pub record Block (G : Type 0) : Type 0 where
  pub future : G
  pub evt2 : Event
  pub tx : ℕ

-- `Poll<T>` of the future, which goes on as another state of itself
pub data Answer (G A : Type 0) : Type 0 where
  unready : G → Answer G A
  value : A → Answer G A

abbrev pub set_channel : {C : Type 0} → (ℕ → C) → ℕ → C → ℕ → C
set_channel cs i c j = if i == j then c else cs j

abbrev pub rest_of : {G A : Type 0} → Block G → Answer G A → Option (Block G)
rest_of b (unready f) = some (record b { future = f })
rest_of b (value v) = none

module _ ⦃L : LibcApi⦄ where
  -- What tasks share: the channels, of which those below `next_channel` are allocated, the
  -- descriptors, and what the futures act on.
  pub record Hub (A V : Type 0) : Type 0 where
    pub channels : ℕ → Channel A
    pub next_channel : ℕ
    pub libc : World
    pub user : V

  pub record Answered (G A V : Type 0) : Type 0 where
    pub effects : List (Effect (Block G))
    pub world : Hub A V
    pub answer : Answer G A

  abbrev pub given : {A V E : Type 0} → Option A → E → Hub A V → Option (A × E × Hub A V)
  given none x w = none
  given (some v) x w = some (v, x, w)

  abbrev pub made : IoResult Event × World → Outcome (Event × World)
  made (okay evt, w) = ret (evt, w)
  made (fail e, w) = panic Panic.unwrap_failed

  module _ {G A V : Type 0} where
    -- what the block does with the future's answer
    abbrev pub send : Block G → Answer G A → Hub A V → Hub A V
    send b (unready f) w = w
    send b (value v) w =
        let (tx, libc) = finish b.evt2 v (w.channels b.tx) w.libc in
        record w { channels = set_channel w.channels b.tx tx; libc = libc }

    -- a poll of the block
    unfoldable pub poll_block :
        (G → TaskId → Hub A V → Answered G A V)
        → Block G
        → TaskId
        → Hub A V
        → Polled (Block G) (Hub A V)
    unfolding finish
    poll_block poll b a w =
        let p = poll b.future a w in
        record { effects = p.effects; world = send b p.answer p.world; rest = rest_of b p.answer }

    module _ ⦃S : SlabApi⦄ where
      -- `spawn`: the joiner with its receiver, after the task is queued. The buffer of the
      -- joiner's waiter is at `ptr`.
      unfoldable pub spawn_block :
          (ptr : ℕ)
          → G
          → Executor (Block G)
          → Hub A V
          → Outcome (TaskJoiner × ℕ × Executor (Block G) × Hub A V)
      unfolding Events.new Events.clone Events.wait spawn
      spawn_block ptr f x w = do
        (evt, w1) ← made (Events.new w.libc)
        (evt2, w2) ← Events.clone evt w1
        ret (
          record { evt = evt; finished = Events.wait evt ptr },
          w.next_channel,
          spawn x (record { future = f; evt2 = evt2; tx = w.next_channel }),
          record w {
            channels = set_channel w.channels w.next_channel sync_channel;
            next_channel = suc w.next_channel;
            libc = w2;
          },
        )

      module _ (poll : G → TaskId → Hub A V → Answered G A V)
          (react : Hub A V → Outcome (List TaskId × Hub A V)) where
        -- `run`
        abbrev pub run :
            ℕ → Executor (Block G) → Hub A V → Outcome (Option (Executor (Block G) × Hub A V))
        run n x w = executor_loop (poll_block poll) react n x w

        -- the join, which closes the joiner's event; `none` is a loop that is out of fuel, or a join
        -- that blocks
        abbrev pub join_after :
            TaskJoiner
            → ℕ
            → Option (Executor (Block G) × Hub A V)
            → Outcome (Option (A × Executor (Block G) × Hub A V))
        join_after joiner rx none = ret none
        join_after joiner rx (some (x, w)) = do
          v ← join (w.channels rx)
          ret (given v x (record w { libc = L.close joiner.evt.inner w.libc }))

        -- `block_on`
        unfoldable pub block_on :
            (ptr n : ℕ)
            → G
            → Executor (Block G)
            → Hub A V
            → Outcome (Option (A × Executor (Block G) × Hub A V))
        unfolding spawn_block executor_loop join
        block_on ptr n f x w = do
          (joiner, rx, x', w') ← spawn_block ptr f x w
          o ← run n x' w'
          join_after joiner rx o
