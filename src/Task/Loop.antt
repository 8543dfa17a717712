-- ===== src/Task/Loop.antt =====
-- About `executor_loop` of src/task.rs: a turn, and the poll of one task.
use trale.Prelude.{
  ℕ, ◌+◌, ◌≡◌, refl, sym, ap, subst, ◌∙◌, inl, inr, true, false, ==_refl, Bool-cases, none, some,
  Option, List, [], ◌∷◌, Option-cases, Outcome, ret, panic, Panic, ◌>>=◌, >>=-eq-ret, arith,
}
use trale.Slab.{SlabApi}
use trale.Task.Defs.{
  Task, TaskId, Executor, wake_all, act_all, park, Polled, run_task, fill, poll_next, turn,
  vec_is_empty,
}
use trale.Task.Wakes.{live, live-act_all, spawned}
use trale.Task.Invariant.{Inv, Absent, Away, wake_all-Inv, act_all-keeps, settle-Inv, pop-keeps}

-- 1 for a future that goes on, 0 for one that is ready
abbrev pub still {ℓ} : {F : Type ℓ} → Option F → ℕ
still none = 0
still (some f) = 1

module _ ⦃S : SlabApi⦄ {F W : Type 0} (poll : F → TaskId → W → Polled F W)
    (react : W → Outcome (List TaskId × W)) where
  -- A turn that polls `task`: the effects happen, and the task is parked unless it is done.
  pub run_task-Inv :
      (x : Executor F) (task : Task F) (w : W)
      → Inv x
      → Away x task.id
      → Inv (run_task poll react x task w).0
  unfolding run_task
  run_task-Inv x task w v away =
      let p = poll task.future task.id w in
      let (v', away') = act_all-keeps x p.effects task.id v away in
      settle-Inv (act_all x p.effects) task.id p.rest v' away'

  pub poll_next_cons :
      (x : Executor F) (task : Task F) (rest : List (Task F)) (w : W)
      → x.run_q ≡ task ∷ rest
      → poll_next poll react x w ≡ ret (run_task poll react (record x { run_q = rest }) task w)
  unfolding poll_next
  poll_next_cons x task rest w e = rw e

  pub poll_next_nil :
      (x : Executor F) (w : W) → x.run_q ≡ [] → poll_next poll react x w ≡ panic Panic.no_task
  unfolding poll_next
  poll_next_nil x w e = rw e

  pub fill_queued :
      (x : Executor F) (w : W) → vec_is_empty x.run_q ≡ false → fill poll react x w ≡ ret (x, w)
  unfolding fill
  fill_queued x w e = rw e

  pub fill_idle :
      (x : Executor F) (w : W)
      → vec_is_empty x.run_q ≡ true
      → fill poll react x w ≡ (react w >>= λ p. ret (wake_all x p.0, p.1))
  unfolding fill
  fill_idle x w e = rw e

  fill-Inv : (x y : Executor F) (w w' : W) → fill poll react x w ≡ ret (y, w') → Inv x → Inv y
  fill-Inv x y w w' e v = elim (Bool-cases (vec_is_empty x.run_q)) [
    | inl empty ↦
        let ((ws, w''), eq, eq') =
          >>=-eq-ret (react w) (λ p. ret (wake_all x p.0, p.1)) {b = (y, w')}
            (sym (fill_idle x w empty) ∙ e) in
        let same : ◌≡◌ {A = Executor F × W} (wake_all x ws, w'') (y, w') = cc eq' in
        subst Inv (ap (λ p. p.0) same) (wake_all-Inv x ws v)
    | inr some_task ↦
        let same : ◌≡◌ {A = Executor F × W} (x, w) (y, w') = cc (fill_queued x w some_task) in
        subst Inv (ap (λ p. p.0) same) v
  ]

  poll_next-Inv :
      (x y : Executor F) (w w' : W)
      → (q : List (Task F)) → x.run_q ≡ q
      → poll_next poll react x w ≡ ret (y, w')
      → Inv x
      → Inv y
  poll_next-Inv x y w w' [] e h v = absurd (cc (poll_next_nil x w e))
  poll_next-Inv x y w w' (task ∷ rest) e h v =
      let (v', away) = pop-keeps x task rest e v in
      let same : run_task poll react (record x { run_q = rest }) task w ≡ (y, w') =
        cc (poll_next_cons x task rest w e) in
      subst Inv (ap (λ p. p.0) same) (run_task-Inv (record x { run_q = rest }) task w v' away)

  -- A turn of the executor's loop that returns keeps the executor's invariant, whatever the
  -- polled future spawns and wakes: the cell of each waiting task holds its key, and no task is
  -- in two places.
  pub turn-Inv : (x y : Executor F) (w w' : W) → turn poll react x w ≡ ret (y, w') → Inv x → Inv y
  unfolding turn
  turn-Inv x y w w' e v =
      let ((z, u), filled, polled) =
        >>=-eq-ret (fill poll react x w) (λ p. poll_next poll react p.0 p.1) {b = (y, w')} e in
      poll_next-Inv z y u w' z.run_q refl polled (fill-Inv x z w u filled v)

  -- With tasks queued a turn does not run the reactor; it polls the task that was queued last.
  pub turn_queued :
      (x : Executor F) (w : W) (task : Task F) (rest : List (Task F))
      → x.run_q ≡ task ∷ rest
      → turn poll react x w ≡ ret (run_task poll react (record x { run_q = rest }) task w)
  unfolding turn
  turn_queued x w task rest e =
      rw (fill_queued x w (ap vec_is_empty e)) (poll_next_cons x task rest w e)

  -- After a task that was taken off the run queue is polled, the number of tasks in the executor
  -- is the number before, plus the tasks that the poll spawned, plus one if it answered Pending:
  -- no wake loses or duplicates a task.
  pub live-run_task :
      (x : Executor F) (task : Task F) (w : W)
      → live (run_task poll react x task w).0
        ≡ live x
          + spawned (poll task.future task.id w).effects
          + still (poll task.future task.id w).rest
  unfolding run_task park
  live-run_task x task w =
      let p = poll task.future task.id w in
      elim (Option-cases p.rest) [
        | inl done ↦ rw done (omega (arith, live-act_all x p.effects))
        | inr (f, more) ↦ rw more (
            omega (
              arith,
              live-act_all x p.effects,
              S.len-insert (act_all x p.effects).waiting (record { id = task.id; future = f }),
            ))
      ]

  -- If the run queue is empty and the wakers that the reactor returns queue no task, the turn
  -- panics on the empty run queue.
  turn_stale :
      (x : Executor F) (w w' : W) (ws : List TaskId)
      → x.run_q ≡ []
      → react w ≡ ret (ws, w')
      → (wake_all x ws).run_q ≡ []
      → turn poll react x w ≡ panic Panic.no_task
  unfolding turn
  turn_stale x w w' ws e r stale =
      rw (fill_idle x w (ap vec_is_empty e), r) (poll_next_nil (wake_all x ws) w' stale)

  -- In an executor that keeps its invariant, if a task that is nowhere in it is polled and
  -- answers Pending, then it is afterwards not in the run queue but waits under the key that its
  -- cell holds, whatever wakers the poll has called, its own included; so a wake of a task during
  -- its own poll is lost.
  pub run_task-parks :
      (x : Executor F) (task : Task F) (w : W) (f : F)
      → Inv x
      → Away x task.id
      → (poll task.future task.id w).rest ≡ some f
      → let y = (run_task poll react x task w).0 in
        Absent task.id y.run_q
        × (S.get y.waiting (y.ids task.id) ≡ some (record { id = task.id; future = f }))
  unfolding run_task park
  run_task-parks x task w f v away e =
      let p = poll task.future task.id w in
      let z : Executor F = act_all x p.effects in
      let (v', away') = act_all-keeps x p.effects task.id v away in
      let new : Task F = record { id = task.id; future = f } in
      rw e (
        away'.not_queued,
        rw (==_refl task.id) (
            S.get-insert z.waiting new (S.vacant_key z.waiting)
            ∙ rw (==_refl (S.vacant_key z.waiting))),
      )
