-- ===== src/Task/Blocking.antt =====
-- About `Executor::block_on` of src/task.rs: what the join after the loop finds.
use trale.Prelude.{
  ℕ, ◌<◌, ◌≤◌, ◌≡◌, ◌≢◌, refl, ap, subst, ◌∙◌, inl, Option, some, List, [], ◌∷◌, Outcome, ret,
  OnRet, OnRet-eq, OnRet-each, arith,
}
use trale.Slab.{SlabApi}
use trale.Libc.{LibcApi}
use trale.Futures.Events
use trale.Task.Defs.{Task, TaskId, Executor, run_task, executor_loop, wake_all, spawn}
use trale.Task.Join.{TaskJoiner, join, unwrap_recv}
use trale.Task.Wakes.{live}
use trale.Task.Termination.{executor_loop_returns}
use trale.Task.Somewhere.{Somewhere, queued, live-Somewhere}
use trale.Task.Owing.{Respects, PaidAtEnd, executor_loop-IsPaid}
use trale.Task.Blocks.{Block, Hub, Answered, poll_block, spawn_block, block_on, join_after, made}

module _ ⦃S : SlabApi⦄ ⦃L : LibcApi⦄ {G A V : Type 0} (j : ℕ)
    (poll : G → TaskId → Hub A V → Answered G A V)
    (react : Hub A V → Outcome (List TaskId × Hub A V))
    -- channel `j`, once it is made, is received from by one joiner, which is not a task's, and sent
    -- to by one block
    (poll-channel : (f : G) (a : TaskId) (w : Hub A V) → Respects j w (poll f a w).world)
    (react-channel : (w : Hub A V) → OnRet (λ p. Respects j w p.1) (react w)) where
  module _ (ptr : ℕ) (f : G) (x : Executor (Block G)) (w : Hub A V) where
    abbrev pub IsSpawned : TaskJoiner × ℕ × Executor (Block G) × Hub A V → Type 0
    IsSpawned p =
        (p.1 ≡ w.next_channel)
        × Somewhere (λ t. t.future.tx ≡ w.next_channel) p.2
        × (w.next_channel < p.3.next_channel)

    spawn_block-IsSpawned : OnRet IsSpawned (spawn_block ptr f x w)
    unfolding spawn_block spawn
    spawn_block-IsSpawned = OnRet-each IsSpawned (made (Events.new w.libc)) _ λ p.
        OnRet-each IsSpawned (Events.clone p.0 p.1) _ λ q.
          let block : Block G = record { future = f; evt2 = q.0; tx = w.next_channel } in
          let there : Somewhere (λ t. t.future.tx ≡ w.next_channel) (spawn x block) =
            queued (inl refl) in
          (refl, there, omega arith)

    block_on_eq :
        (n : ℕ) (joiner : TaskJoiner) (rx : ℕ) (x' : Executor (Block G)) (w' : Hub A V)
        → (o : Option (Executor (Block G) × Hub A V))
        → spawn_block ptr f x w ≡ ret (joiner, rx, x', w')
        → executor_loop (poll_block poll) react n x' w' ≡ ret o
        → block_on poll react ptr n f x w ≡ join_after poll react joiner rx o
    unfolding block_on
    block_on_eq n joiner rx x' w' o spawned ran = rw (spawned, ran) refl

    join_after_paid :
        (joiner : TaskJoiner) (y : Executor (Block G)) (w' : Hub A V) (v : A)
        → (w'.channels j).buffer ≡ some v
        → join_after poll react joiner j (some (y, w'))
          ≡ ret (some (v, y, record w' { libc = L.close joiner.evt.inner w'.libc }))
    unfolding join unwrap_recv
    join_after_paid joiner y w' v e = rw e

    -- If the loop that `block_on` runs on the spawned task returns, then so does `block_on`, and
    -- the joiner's event is closed.
    pub block_on-joins :
        (n : ℕ) (joiner : TaskJoiner) (rx : ℕ) (x' y : Executor (Block G)) (w' w'' : Hub A V)
        → w.next_channel ≡ j
        → spawn_block ptr f x w ≡ ret (joiner, rx, x', w')
        → executor_loop (poll_block poll) react n x' w' ≡ ret (some (y, w''))
        → (v : A) × (block_on poll react ptr n f x w
            ≡ ret (some (v, y, record w'' { libc = L.close joiner.evt.inner w''.libc })))
    block_on-joins n joiner rx x' y w' w'' mine spawned ran =
        let (same, there, allocated) =
          OnRet-eq IsSpawned (spawn_block ptr f x w) (joiner, rx, x', w') spawn_block-IsSpawned
            spawned in
        let (v, paid) =
          OnRet-eq (PaidAtEnd j poll react poll-channel react-channel)
            (executor_loop (poll_block poll) react n x' w') (some (y, w''))
            (executor_loop-IsPaid j poll react poll-channel react-channel n x' w' (
              subst (λ i. i < w'.next_channel) mine allocated,
              inl (subst (λ i. Somewhere (λ t. t.future.tx ≡ i) x') mine there),
            ))
            ran in
        (
          v,
          block_on_eq n joiner rx x' w' (some (y, w'')) spawned ran
              ∙ ap (λ i. join_after poll react joiner i (some (y, w''))) (same ∙ mine)
              ∙ join_after_paid joiner y w'' v paid,
        )

    module _ (work : Hub A V → ℕ) (P : Executor (Block G) → Hub A V → Type 0)
        -- every poll of a queued task uses up some of the work that is left
        (keep : (y : Executor (Block G)) (task : Task (Block G)) (rest : List (Task (Block G)))
          → (u : Hub A V) → y.run_q ≡ task ∷ rest
          → P y u
          → let r = run_task (poll_block poll) react (record y { run_q = rest }) task u in
            P r.0 r.1 × (work r.1 < work u))
        -- when all tasks wait, the reactor wakes one
        (progress : (y : Executor (Block G)) (u : Hub A V)
          → y.run_q ≡ []
          → live y ≢ 0
          → P y u
          → (ws : List TaskId) × (u' : Hub A V) × (react u ≡ ret (ws, u'))
            × P (wake_all y ws) u'
            × (work u' ≤ work u)
            × ((wake_all y ws).run_q ≢ [])) where
      -- Take polls and a reactor that make progress: a predicate is kept, and work used up, by
      -- every poll of a queued task, and where all tasks wait the reactor queues one, keeps the
      -- predicate and adds no work. Let them leave the channel alone that the spawn of a future
      -- makes, once it is made. If this spawn succeeds and the predicate holds after it, with
      -- less work than fuel, then block_on of the future returns a value and leaves no task: the
      -- loop ends, and the join neither blocks nor panics.
      pub block_on-returns :
          (n : ℕ) (joiner : TaskJoiner) (rx : ℕ) (x' : Executor (Block G)) (w' : Hub A V)
          → w.next_channel ≡ j
          → spawn_block ptr f x w ≡ ret (joiner, rx, x', w')
          → P x' w'
          → work w' < n
          → (v : A) × (y : Executor (Block G)) × (w'' : Hub A V) × (block_on poll react ptr n f x w
              ≡ ret (some (v, y, w'')))
            × (live y ≡ 0)
      block_on-returns n joiner rx x' w' mine spawned p lt =
          let (same, there, allocated) =
            OnRet-eq IsSpawned (spawn_block ptr f x w) (joiner, rx, x', w') spawn_block-IsSpawned
              spawned in
          let some_live : live x' ≢ 0 =
            live-Somewhere (λ t. t.future.tx ≡ w.next_channel) x' there in
          let (y, w'', ran, none_left, last) =
            executor_loop_returns (poll_block poll) react work P keep progress n x' w' some_live p
              lt in
          let (v, returned) = block_on-joins n joiner rx x' y w' w'' mine spawned ran in
          (v, y, record w'' { libc = L.close joiner.evt.inner w''.libc }, returned, none_left)
