-- ===== src/Task/Owing.antt =====
-- About the async block of `Executor::spawn` in src/task.rs: its value arrives in its channel.
use trale.Prelude.{
  ℕ, zero, suc, ◌<◌, ◌≡◌, refl, ap, subst, ◌∙◌, ◌⊎◌, inl, inr, Bool-cases, Option, none, some, List,
  ◌∷◌, List-cases, Outcome, OnRet, OnRet-bind, eq_cases, ==_refl, arith,
}
use trale.Slab.{SlabApi}
use trale.Libc.{LibcApi}
use trale.Task.Defs.{
  Task, TaskId, Executor, run_task, fill, poll_next, turn, executor_loop, wake_all, act_all, settle,
  vec_is_empty, is_finished,
}
use trale.Task.Join.{finish}
use trale.Task.Wakes.{live}
use trale.Task.Loop.{fill_idle, fill_queued, poll_next_cons, poll_next_nil}
use trale.Task.Termination.{finished_live}
use trale.Task.Somewhere.{
  Somewhere, IsAmong, queued, waits, wake_all-Somewhere, act_all-Somewhere, settle-Somewhere,
  park_there, live-Somewhere,
}
use trale.Task.Blocks.{
  Block, Answer, unready, value, Hub, Answered, send, rest_of, poll_block, made,
}

-- A channel that is made is left alone, and stays made.
abbrev pub Respects : ⦃L : LibcApi⦄ → {A V : Type 0} → ℕ → Hub A V → Hub A V → Type 0
Respects j w w' = j < w.next_channel → (w'.channels j ≡ w.channels j) × (j < w'.next_channel)

module _ ⦃S : SlabApi⦄ ⦃L : LibcApi⦄ {G A V : Type 0} (j : ℕ)
    (poll : G → TaskId → Hub A V → Answered G A V)
    (react : Hub A V → Outcome (List TaskId × Hub A V))
    -- channel `j`, once it is made, is received from by one joiner, which is not a task's, and sent
    -- to by one block
    (poll-channel : (f : G) (a : TaskId) (w : Hub A V) → Respects j w (poll f a w).world)
    (react-channel : (w : Hub A V) → OnRet (λ p. Respects j w p.1) (react w)) where
  abbrev pub IsPaid : Hub A V → Type 0
  IsPaid w = (v : A) × ((w.channels j).buffer ≡ some v)

  -- A block that sends to the channel is in the executor, or the channel has its value.
  abbrev pub Owes : Executor (Block G) × Hub A V → Type 0
  Owes p = Somewhere (λ t. t.future.tx ≡ j) p.0 ⊎ IsPaid p.1

  abbrev pub IsOwed : Executor (Block G) × Hub A V → Type 0
  IsOwed p = (j < p.1.next_channel) × Owes p

  next_channel-send :
      (b : Block G) (o : Answer G A) (w : Hub A V) → (send b o w).next_channel ≡ w.next_channel
  unfolding finish
  next_channel-send b (unready f) w = refl
  next_channel-send b (value v) w = refl

  send-IsPaid : (b : Block G) (o : Answer G A) (w : Hub A V) → IsPaid w → IsPaid (send b o w)
  unfolding finish
  send-IsPaid b (unready f) w p = p
  send-IsPaid b (value v) w (u, e) = elim (eq_cases b.tx j) [
    | inl same ↦ (v, rw (same, ==_refl j) refl)
    | inr other ↦ (u, ground arith)
  ]

  -- the block of channel `j`, polled
  settle-Owes :
      (x : Executor (Block G)) (a : TaskId) (b : Block G) (o : Answer G A) (w : Hub A V)
      → b.tx ≡ j
      → Owes (settle x a (rest_of b o), send b o w)
  unfolding finish
  settle-Owes x a b (unready f) w mine =
      inl (park_there (λ t. t.future.tx ≡ j) x a (record b { future = f }) mine)
  settle-Owes x a b (value v) w mine = inr (v, rw (mine, ==_refl j) refl)

  run_task-Owes :
      (x : Executor (Block G)) (task : Task (Block G)) (w : Hub A V)
      → j < w.next_channel
      → (task.future.tx ≡ j) ⊎ Owes (x, w)
      → Owes (run_task (poll_block poll) react x task w)
  unfolding run_task poll_block
  run_task-Owes x task w made (inl mine) =
      let b = task.future in
      let p = poll b.future task.id w in
      settle-Owes (act_all x p.effects) task.id b p.answer p.world mine
  run_task-Owes x task w made (inr (inl there)) =
      let p = poll task.future.future task.id w in
      inl (
        settle-Somewhere (λ t. t.future.tx ≡ j) (act_all x p.effects) task.id
          (rest_of task.future p.answer)
          (act_all-Somewhere (λ t. t.future.tx ≡ j) x p.effects there))
  run_task-Owes x task w made (inr (inr (v, e))) =
      let p = poll task.future.future task.id w in
      inr (
        send-IsPaid task.future p.answer p.world
          (v, ap (λ c. c.buffer) (poll-channel task.future.future task.id w made).0 ∙ e))

  run_task-IsOwed :
      (x : Executor (Block G)) (task : Task (Block G)) (w : Hub A V)
      → j < w.next_channel
      → (task.future.tx ≡ j) ⊎ Owes (x, w)
      → IsOwed (run_task (poll_block poll) react x task w)
  unfolding run_task poll_block
  run_task-IsOwed x task w made o =
      let b = task.future in
      let p = poll b.future task.id w in
      (
        omega
            (arith, (poll-channel b.future task.id w made).1, next_channel-send b p.answer p.world),
        run_task-Owes x task w made o,
      )

  popped :
      (x : Executor (Block G)) (task : Task (Block G)) (rest : List (Task (Block G))) (w : Hub A V)
      → x.run_q ≡ task ∷ rest
      → Owes (x, w)
      → (task.future.tx ≡ j) ⊎ Owes (record x { run_q = rest }, w)
  popped x task rest w e (inl (queued m)) = elim (subst (IsAmong (λ t. t.future.tx ≡ j)) e m) [
    | inl mine ↦ inl mine
    | inr later ↦ inr (inl (queued later))
  ]
  popped x task rest w e (inl (waits k t g q)) = inr (inl (waits k t g q))
  popped x task rest w e (inr paid) = inr (inr paid)

  poll_next-IsOwed :
      (x : Executor (Block G)) (w : Hub A V)
      → IsOwed (x, w)
      → OnRet IsOwed (poll_next (poll_block poll) react x w)
  poll_next-IsOwed x w o = elim (List-cases x.run_q) [
    | inl none_queued ↦ rw (poll_next_nil (poll_block poll) react x w none_queued) tt
    | inr (task, rest, q) ↦
        rw (poll_next_cons (poll_block poll) react x task rest w q)
          (run_task-IsOwed (record x { run_q = rest }) task w o.0 (popped x task rest w q o.1))
  ]

  woken-IsOwed :
      (x : Executor (Block G)) (ws : List TaskId) (w w' : Hub A V)
      → Respects j w w'
      → IsOwed (x, w)
      → IsOwed (wake_all x ws, w')
  woken-IsOwed x ws w w' same (made, inl there) =
      ((same made).1, inl (wake_all-Somewhere (λ t. t.future.tx ≡ j) x ws there))
  woken-IsOwed x ws w w' same (made, inr (v, e)) =
      ((same made).1, inr (v, ap (λ c. c.buffer) (same made).0 ∙ e))

  fill-IsOwed :
      (x : Executor (Block G)) (w : Hub A V)
      → IsOwed (x, w)
      → OnRet IsOwed (fill (poll_block poll) react x w)
  fill-IsOwed x w o = elim (Bool-cases (vec_is_empty x.run_q)) [
    | inl empty ↦ rw (fill_idle (poll_block poll) react x w empty) (
        OnRet-bind (λ p. Respects j w p.1) IsOwed (react w) _ (react-channel w)
          (λ p same. woken-IsOwed x p.0 w p.1 same o))
    | inr some_queued ↦ rw (fill_queued (poll_block poll) react x w some_queued) o
  ]

  abbrev pub PaidAtEnd : Option (Executor (Block G) × Hub A V) → Type 0
  PaidAtEnd none = Unit {0}
  PaidAtEnd (some p) = IsPaid p.1

  IsPaid-at_end : (x : Executor (Block G)) (w : Hub A V) → live x ≡ 0 → Owes (x, w) → IsPaid w
  IsPaid-at_end x w over (inl there) = absurd (live-Somewhere (λ t. t.future.tx ≡ j) x there over)
  IsPaid-at_end x w over (inr paid) = paid

  pub executor_loop-IsPaid :
      (n : ℕ) (x : Executor (Block G)) (w : Hub A V)
      → IsOwed (x, w)
      → OnRet PaidAtEnd (executor_loop (poll_block poll) react n x w)
  unfolding executor_loop turn
  executor_loop-IsPaid zero x w o = tt
  executor_loop-IsPaid (suc n) x w o =
      OnRet-bind IsOwed PaidAtEnd (turn (poll_block poll) react x w) _
        (OnRet-bind IsOwed IsOwed (fill (poll_block poll) react x w) _ (fill-IsOwed x w o)
          (λ p o'. poll_next-IsOwed p.0 p.1 o'))
        λ p o'. elim (Bool-cases (is_finished p.0)) [
          | inl done ↦ rw done (IsPaid-at_end p.0 p.1 (finished_live p.0 done) o'.1)
          | inr more ↦ rw more (executor_loop-IsPaid n p.0 p.1 o')
        ]
