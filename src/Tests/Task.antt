-- ===== src/Tests/Task.antt =====
-- One task that answers `Pending` some times and is then ready.
use trale.Prelude.{
  ℕ, zero, suc, ◌-◌, ◌<◌, ◌≤◌, ◌≡◌, ◌≢◌, refl, ◌⊎◌, inl, inr, none, some, List, [], ◌∷◌, Outcome,
  ret, arith, ap,
}
use trale.Slab.Vector.{vector_slab}
use trale.Task.Defs.{
  Task, TaskId, Executor, Polled, spawns, wakes, spawn, new, wake, wake_all, run_task, turn,
  executor_loop, act_all, park, store, fill, poll_next,
}
use trale.Task.Invariant.{Inv, Away, Absent}
use trale.Task.Wakes.{live}
use trale.Task.Loop.{turn-Inv, run_task-parks, live-run_task}
use trale.Task.Termination.{executor_loop_returns}

-- The world is the number of polls that are left; the future is the number that it answers `Pending`.
poll : ℕ → TaskId → ℕ → Polled ℕ ℕ
poll zero a w = record { effects = []; world = w - 1; rest = none }
poll (suc f) a w = record { effects = []; world = w - 1; rest = some f }

abbrev react : ℕ → Outcome (List TaskId × ℕ)
react w = ret (0 ∷ [], w)

abbrev countdown : ℕ → Task ℕ
countdown f = record { id = 0; future = f }

data Runs (x : Executor ℕ) (w : ℕ) : Type 0 where
  queued :
      (f : ℕ)
      → w ≡ suc f
      → x.run_q ≡ countdown f ∷ []
      → (x.waiting ≡ []) ⊎ (x.waiting ≡ none ∷ [])
      → Runs x w
  parked :
      (f : ℕ)
      → w ≡ suc f
      → x.run_q ≡ []
      → x.waiting ≡ some (countdown f) ∷ []
      → x.ids 0 ≡ 0
      → Runs x w
  over : x.run_q ≡ [] → live x ≡ 0 → Runs x w

run_one :
    (x : Executor ℕ) (f w : ℕ)
    → w ≡ suc f
    → (x.waiting ≡ []) ⊎ (x.waiting ≡ none ∷ [])
    → let r = run_task poll react (record x { run_q = [] }) (countdown f) w in
      Runs r.0 r.1 × (r.1 < w)
unfolding run_task poll act_all park
run_one x zero w e (inl s) = (over refl (rw s refl), omega arith)
run_one x zero w e (inr s) = (over refl (rw s refl), omega arith)
run_one x (suc f) w e (inl s) = (parked f (omega arith) refl (rw s refl) (rw s refl), omega arith)
run_one x (suc f) w e (inr s) = (parked f (omega arith) refl (rw s refl) (rw s refl), omega arith)

keep :
    (x : Executor ℕ) (task : Task ℕ) (rest : List (Task ℕ)) (w : ℕ)
    → x.run_q ≡ task ∷ rest
    → Runs x w
    → let r = run_task poll react (record x { run_q = rest }) task w in Runs r.0 r.1 × (r.1 < w)
keep x task rest w e (queued f k q s) =
    let same : task ≡ countdown f = cc in
    let none_left : rest ≡ [] = cc in rw (same, none_left) (run_one x f w k s)
keep x task rest w e (parked f k q s a) = absurd (cc)
keep x task rest w e (over q z) = absurd (cc)

progress :
    (x : Executor ℕ) (w : ℕ)
    → x.run_q ≡ []
    → live x ≢ 0
    → Runs x w
    → (ws : List TaskId) × (w' : ℕ) × (react w ≡ ret (ws, w'))
      × Runs (wake_all x ws) w'
      × (w' ≤ w)
      × ((wake_all x ws).run_q ≢ [])
unfolding wake_all wake
progress x w e some_live (queued f k q s) = absurd (cc)
progress x w e some_live (over q z) = absurd (some_live z)
progress x w e some_live (parked f k q s a) =
    let woken : (wake x 0).run_q ≡ countdown f ∷ [] = rw (a, s) (ap (◌∷◌ (countdown f)) q) in
    (0 ∷ [], w, refl, queued f k woken (inr (rw (a, s) refl)), omega arith, λ none_woken. cc)

-- a task that waits twice
abbrev start : Executor ℕ
start = record { waiting = []; run_q = countdown 2 ∷ []; ids = λ a. 0; next_id = 1 }

start-spawn : spawn new 2 ≡ record start { ids = store (λ a. 0) 0 0 }
unfolding spawn new
start-spawn = refl

executor_loop_returns_example :
    (y : Executor ℕ) × (w' : ℕ) × (executor_loop poll react 4 start 3 ≡ ret (some (y, w')))
    × (live y ≡ 0)
    × Runs y w'
executor_loop_returns_example =
    executor_loop_returns poll react (λ w. w) Runs keep progress 4 start 3 (omega arith)
      (queued 2 refl refl (inl refl)) (omega arith)

start-Inv : Inv start
start-Inv = record {
  cells = λ k t p. absurd (cc);
  apart = λ k t p. absurd (cc);
  distinct = (tt, tt);
  old_waiting = λ k t p. absurd (cc);
  old_queued = (omega arith, tt);
}

abbrev waiting_once : Executor ℕ
waiting_once = record {
  waiting = some (countdown 1) ∷ [];
  run_q = [];
  ids = store (λ a. 0) 0 0;
  next_id = 1;
}

turn_result : turn poll react start 3 ≡ ret (waiting_once, 2)
unfolding turn fill poll_next run_task poll act_all park
turn_result = refl

turn-Inv_example : Inv waiting_once
turn-Inv_example = turn-Inv poll react start waiting_once 3 2 turn_result start-Inv

abbrev polling : Executor ℕ
polling = record start { run_q = [] }

polling-Inv : Inv polling
polling-Inv = record {
  cells = λ k t p. absurd (cc);
  apart = λ k t p. absurd (cc);
  distinct = tt;
  old_waiting = λ k t p. absurd (cc);
  old_queued = tt;
}

polling-Away : Away polling 0
polling-Away = record {
  not_queued = tt;
  not_waiting = λ k t p. absurd (cc);
  allocated = omega arith;
}

-- A future that wakes itself before it answers `Pending`.
self_waking : ℕ → TaskId → ℕ → Polled ℕ ℕ
self_waking f a w = record { effects = wakes a ∷ spawns 5 ∷ []; world = w; rest = some f }

run_task-parks_example :
    let y = (run_task self_waking react polling (countdown 2) 3).0 in
    Absent 0 y.run_q × (vector_slab.get y.waiting (y.ids 0) ≡ some (countdown 2))
unfolding self_waking
run_task-parks_example =
    run_task-parks self_waking react polling (countdown 2) 3 2 polling-Inv polling-Away refl

live-run_task_example : live (run_task self_waking react polling (countdown 2) 3).0 ≡ 2
unfolding self_waking
live-run_task_example = live-run_task self_waking react polling (countdown 2) 3

-- Task 0 waits, and the reactor yields the waker of a task that has ended.
abbrev two_ids : Executor ℕ
two_ids = record waiting_once { ids = store (λ a. 0) 1 1; next_id = 2 }
