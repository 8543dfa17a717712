-- ===== src/Tests/Blocking.antt =====
-- `block_on` of a future that is ready with a value at its first poll.
use trale.Prelude.{
  ℕ, ◌-◌, ◌<◌, ◌≤◌, ◌≡◌, ◌≢◌, refl, false, some, List, [], ◌∷◌, Outcome, ret, arith, none,
}
use trale.Slab.Vector.{vector_slab}
use trale.Libc.Table.{no_web, table_libc}
use trale.Task.Defs.{Task, TaskId, Executor, new, spawn, run_task, wake_all, act_all}
use trale.Task.Join.{TaskJoiner}
use trale.Task.Wakes.{live}
use trale.Task.Blocks.{Block, Hub, Answered, value, poll_block, spawn_block, block_on}
use trale.Task.Blocking.{block_on-returns}
use trale.Futures.Events

abbrev hub : Hub ℕ ℕ
hub = record {
  channels = λ c. record { buffer = none; connected = false };
  next_channel = 0;
  libc = record { facts = []; top = 3; busy_port = 80; events = []; counts = λ e. 0; web = no_web };
  user = 1;
}

-- the user's world is the number of polls that are left
abbrev ready_at_once : ℕ → TaskId → Hub ℕ ℕ → Answered ℕ ℕ ℕ
ready_at_once f a w = record {
  effects = [];
  world = record w { user = w.user - 1 };
  answer = value f;
}

abbrev react : Hub ℕ ℕ → Outcome (List TaskId × Hub ℕ ℕ)
react w = ret ([], w)

data Runs (x : Executor (Block ℕ)) (w : Hub ℕ ℕ) : Type 0 where
  queued : (t : Task (Block ℕ)) → x.run_q ≡ t ∷ [] → x.waiting ≡ [] → w.user ≡ 1 → Runs x w
  over : x.run_q ≡ [] → live x ≡ 0 → Runs x w

keep :
    (x : Executor (Block ℕ)) (task : Task (Block ℕ)) (rest : List (Task (Block ℕ))) (w : Hub ℕ ℕ)
    → x.run_q ≡ task ∷ rest
    → Runs x w
    → let r = run_task (poll_block ready_at_once) react (record x { run_q = rest }) task w in
      Runs r.0 r.1 × (r.1.user < w.user)
unfolding run_task poll_block act_all
keep x task rest w e (queued t q s k) =
    let none_left : rest ≡ [] = cc in (over none_left (rw (s, none_left) refl), omega arith)
keep x task rest w e (over q z) = absurd (cc)

progress :
    (x : Executor (Block ℕ)) (w : Hub ℕ ℕ)
    → x.run_q ≡ []
    → live x ≢ 0
    → Runs x w
    → (ws : List TaskId) × (w' : Hub ℕ ℕ) × (react w ≡ ret (ws, w'))
      × Runs (wake_all x ws) w'
      × (w'.user ≤ w.user)
      × ((wake_all x ws).run_q ≢ [])
progress x w e some_live (queued t q s k) = absurd (cc)
progress x w e some_live (over q z) = absurd (some_live z)

spawned :
    (joiner : TaskJoiner) × (x : Executor (Block ℕ)) × (w : Hub ℕ ℕ) × (spawn_block 8 7 new hub
      ≡ ret (joiner, 0, x, w))
    × Runs x w
    × (w.user ≡ 1)
unfolding spawn_block new spawn Events.new Events.clone Events.wait
spawned = (_, _, _, refl, queued _ refl refl refl, refl)

block_on-returns_example :
    (v : ℕ) × (y : Executor (Block ℕ)) × (w : Hub ℕ ℕ) × (block_on ready_at_once react 8 2 7 new hub
      ≡ ret (some (v, y, w)))
    × (live y ≡ 0)
block_on-returns_example =
    block_on-returns 0 ready_at_once react (λ f a w lt. (refl, lt)) (λ w lt. (refl, lt)) 8 7 new hub
      (λ w. w.user) Runs keep progress 2 spawned.0 0 spawned.1 spawned.2 refl spawned.3 spawned.4
      (omega (arith, spawned.5))
