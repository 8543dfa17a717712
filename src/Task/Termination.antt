-- ===== src/Task/Termination.antt =====
-- About `executor_loop` of src/task.rs: its turns in sequence.
use trale.Prelude.{
  ℕ, zero, suc, ◌<◌, ◌≤◌, ◌≡◌, ◌≢◌, refl, ap, inl, inr, true, false, List-cases, Bool-cases, some,
  List, [], ◌∷◌, Outcome, ret, arith,
}
use trale.Slab.{SlabApi}
use trale.Task.Defs.{
  Task, TaskId, Executor, wake_all, Polled, run_task, turn, executor_loop, vec_is_empty,
  is_finished,
}
use trale.Task.Loop.{turn_queued, fill_idle, poll_next_cons}
use trale.Task.Wakes.{live}

module _ ⦃S : SlabApi⦄ {F : Type 0} where
  pub finished_live : (x : Executor F) → is_finished x ≡ true → live x ≡ 0
  finished_live x h = ground arith

  unfinished_live : (x : Executor F) → is_finished x ≡ false → live x ≢ 0
  unfinished_live x h = ground arith

module _ ⦃S : SlabApi⦄ {F W : Type 0} (poll : F → TaskId → W → Polled F W)
    (react : W → Outcome (List TaskId × W)) where
  module _ (work : W → ℕ) (P : Executor F → W → Type 0)
      -- every poll of a queued task uses up some of the work that is left
      (keep : (x : Executor F) (task : Task F) (rest : List (Task F)) (w : W)
        → x.run_q ≡ task ∷ rest
        → P x w
        → let r = run_task poll react (record x { run_q = rest }) task w in
          P r.0 r.1 × (work r.1 < work w))
      -- when all tasks wait, the reactor wakes one
      (progress : (x : Executor F) (w : W)
        → x.run_q ≡ []
        → live x ≢ 0
        → P x w
        → (ws : List TaskId) × (w' : W) × (react w ≡ ret (ws, w'))
          × P (wake_all x ws) w'
          × (work w' ≤ work w)
          × ((wake_all x ws).run_q ≢ [])) where
    abbrev Turned : Executor F → W → Type 0
    Turned x w =
        (y : Executor F) × (w' : W) × (turn poll react x w ≡ ret (y, w'))
        × P y w'
        × (work w' < work w)

    turn_from :
        (x : Executor F) (w : W) (q : List (Task F)) → x.run_q ≡ q → live x ≢ 0 → P x w → Turned x w
    unfolding turn
    turn_from x w (task ∷ rest) e some_live p =
        let (p', less) = keep x task rest w e p in
        (_, _, turn_queued poll react x w task rest e, p', less)
    turn_from x w [] e some_live p =
        let (ws, w', r, p', le, woken) = progress x w e some_live p in
        elim (List-cases (wake_all x ws).run_q) [
          | inl none_woken ↦ absurd (woken none_woken)
          | inr (task, rest, q) ↦
              let (p'', less) = keep (wake_all x ws) task rest w' q p' in
              (
                _,
                _,
                rw (fill_idle poll react x w (ap vec_is_empty e), r)
                    (poll_next_cons poll react (wake_all x ws) task rest w' q),
                p'',
                omega arith,
              )
        ]

    -- Take a predicate on the executor and the world such that every poll of a queued task keeps
    -- it and uses up some of a finite amount of work, and such that the reactor, whenever it
    -- holds and all tasks wait, returns wakers that queue a task, keeps it and adds no work. Then
    -- the loop, started where it holds with at least one task and with more fuel than work,
    -- returns without a panic and leaves no task, and the predicate holds at its end.
    pub executor_loop_returns :
        (n : ℕ) (x : Executor F) (w : W)
        → live x ≢ 0
        → P x w
        → work w < n
        → (y : Executor F) × (w' : W) × (executor_loop poll react n x w ≡ ret (some (y, w')))
          × (live y ≡ 0)
          × P y w'
    unfolding executor_loop
    executor_loop_returns zero x w some_live p lt = absurd (omega arith)
    executor_loop_returns (suc n) x w some_live p lt =
        let (y, w', eq, p', less) = turn_from x w x.run_q refl some_live p in
        elim (Bool-cases (is_finished y)) [
          | inl done ↦ (y, w', rw (eq, done), finished_live y done, p')
          | inr more ↦
              let (z, w'', eq', none_left, last) =
                executor_loop_returns n y w' (unfinished_live y more) p' (omega arith) in
              (z, w'', rw (eq, more) eq', none_left, last)
        ]
