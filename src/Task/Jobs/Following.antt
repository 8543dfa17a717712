-- ===== src/Task/Jobs/Following.antt =====
-- Each task is as far in its job as the results that it was given lead it.
use trale.Prelude.{
  ℕ, zero, suc, ◌+◌, ◌<◌, ◌≡◌, ◌≢◌, refl, sym, ap, subst, ◌∙◌, ◌⊎◌, inl, inr, eq_cases, Option,
  none, some, List, [], ◌∷◌, arith, ==_refl, ℤ, length,
}
use trale.Slab.{SlabApi}
use trale.RingBuffer.{BufferApi}
use trale.Uring.{UringApi}
use trale.Reactor.Io.Value.{IoResult}
use trale.Reactor.System.Defs.{update}
use trale.Task.Defs.{Task, TaskId, Executor, settle, wake_all, spawn, new}
use trale.Task.Invariant as Tasks
use trale.Task.Invariant.{Absent, Away, pop-keeps}
use trale.Task.Wakes.{live}
use trale.Task.Somewhere.{
  Somewhere, queued, waits, IsAmong, wake_all-Somewhere, Somewhere-wake_all, Somewhere-settle,
  Somewhere-pop, pop-Somewhere, settle-Somewhere, park_there, spawn-Somewhere, live-Somewhere,
}
use trale.Task.Jobs.Defs.{Job, finish, job_after, spawn_all}
use trale.Task.Jobs.Polls.{Leads, left_over}

-- The job of the task that is spawned after so many others.
unfoldable pub job_at : List Job → ℕ → Job
job_at [] a = finish
job_at (j ∷ js) zero = j
job_at (j ∷ js) (suc a) = job_at js a

module _ ⦃S : SlabApi⦄ where
  abbrev pub Here : Executor Job → Task Job → Type 0
  Here x t = Somewhere (λ u. u ≡ t) x

  abbrev pub Lives : Executor Job → TaskId → Type 0
  Lives x a = Somewhere (λ (t : Task Job). t.id ≡ a) x

  Absent-ne :
      (a : TaskId) (t : Task Job) (ts : List (Task Job))
      → Absent a ts
      → IsAmong (λ u. u ≡ t) ts
      → a ≢ t.id
  Absent-ne a t [] away m = absurd m
  Absent-ne a t (u ∷ ts) away (inl e) = λ e'. away.0 (ap (λ v. v.id) e ∙ sym e')
  Absent-ne a t (u ∷ ts) away (inr m) = Absent-ne a t ts away.1 m

  Away-ne : (x : Executor Job) (a : TaskId) (t : Task Job) → Away x a → Here x t → a ≢ t.id
  Away-ne x a t away (queued m) = Absent-ne a t x.run_q away.not_queued m
  Away-ne x a t away (waits k u g e) = λ e'. away.not_waiting k u g (ap (λ v. v.id) e ∙ sym e')

module _ ⦃S : SlabApi⦄ ⦃B : BufferApi⦄ ⦃U : UringApi⦄ (jobs : TaskId → Job) (n : ℕ) where
  pub record Follows (answers : TaskId → List (IoResult ℤ)) (x : Executor Job) : Type 0 where
    pub followed : (t : Task Job) → Here x t → job_after (jobs t.id) (answers t.id) ≡ some t.future
    -- every task is there, or has come to its end
    pub reached : (a : TaskId) → a < n → Lives x a ⊎ (job_after (jobs a) (answers a) ≡ some finish)

  pub wake_all-Follows :
      (answers : TaskId → List (IoResult ℤ)) (x : Executor Job) (ws : List TaskId)
      → Follows answers x
      → Follows answers (wake_all x ws)
  wake_all-Follows answers x ws v = record {
    followed = λ t here. v.followed t (Somewhere-wake_all (λ u. u ≡ t) x ws here);
    reached = λ a lt. elim (v.reached a lt) [
      | inl lives ↦ inl (wake_all-Somewhere (λ (t : Task Job). t.id ≡ a) x ws lives)
      | inr over ↦ inr over
    ];
  }

  -- With no task left, each has come to its end.
  pub over-Follows :
      (answers : TaskId → List (IoResult ℤ)) (x : Executor Job)
      → Follows answers x
      → live x ≡ 0
      → (a : TaskId) → a < n
      → job_after (jobs a) (answers a) ≡ some finish
  over-Follows answers x v none_left a lt = elim (v.reached a lt) [
    | inl lives ↦ absurd (live-Somewhere (λ (t : Task Job). t.id ≡ a) x lives none_left)
    | inr over ↦ over
  ]

  module _ (answers : TaskId → List (IoResult ℤ)) (x : Executor Job) (task : Task Job)
      (rest : List (Task Job)) (popped : x.run_q ≡ task ∷ rest) (tasks : Tasks.Inv x)
      (v : Follows answers x) (o : Option Job) (rs : List (IoResult ℤ))
      (leads : Leads task.future (answers task.id) o rs) where
    abbrev y : Executor Job
    y = record x { run_q = rest }

    abbrev given : TaskId → List (IoResult ℤ)
    given = update answers task.id rs

    led : job_after (jobs task.id) rs ≡ some (left_over o)
    led =
        leads (jobs task.id)
          (v.followed task (queued (subst (IsAmong (λ u. u ≡ task)) (sym popped) (inl refl))))

    led_given : (a : TaskId) → task.id ≡ a → job_after (jobs a) (given a) ≡ some (left_over o)
    led_given a e =
        subst (λ b. job_after (jobs b) (given b) ≡ some (left_over o)) e (rw (==_refl task.id) led)

    unpolled : (t : Task Job) → Here y t → job_after (jobs t.id) (given t.id) ≡ some t.future
    unpolled t old =
        let away = (pop-keeps x task rest popped tasks).1 in
        let other : task.id ≢ t.id = Away-ne y task.id t away old in
        let kept : given t.id ≡ answers t.id = ground (arith, other) in
        ap (job_after (jobs t.id)) kept
        ∙ v.followed t (Somewhere-pop (λ u. u ≡ t) x task rest popped old)

    moved :
        (t : Task Job) (f : Job)
        → o ≡ some f
        → record { id = task.id; future = f } ≡ t
        → job_after (jobs t.id) (given t.id) ≡ some t.future
    moved t f e same =
        subst (λ u. job_after (jobs u.id) (given u.id) ≡ some u.future) same
          (led_given task.id refl ∙ ap (λ p. some (left_over p)) e)

    polled_reached :
        (p : Option Job)
        → o ≡ p
        → (a : TaskId) → task.id ≡ a
        → Lives (settle y task.id p) a ⊎ (job_after (jobs a) (given a) ≡ some finish)
    polled_reached none e a same = inr (led_given a same ∙ ap (λ p. some (left_over p)) e)
    polled_reached (some f) e a same =
        inl (park_there (λ (t : Task Job). t.id ≡ a) y task.id f same)

    others_reached :
        (a : TaskId)
        → a < n
        → task.id ≢ a
        → Lives (settle y task.id o) a ⊎ (job_after (jobs a) (given a) ≡ some finish)
    others_reached a lt other = elim (v.reached a lt) [
      | inl lives ↦ inl (
          settle-Somewhere (λ (t : Task Job). t.id ≡ a) y task.id o
            (pop-Somewhere (λ (t : Task Job). t.id ≡ a) x task rest popped other lives))
      | inr over ↦
          let kept : given a ≡ answers a = ground (arith, other) in
          inr (ap (job_after (jobs a)) kept ∙ over)
    ]

    -- A poll keeps it.
    pub settle-Follows : Follows given (settle y task.id o)
    settle-Follows = record {
      followed = λ t here. elim (Somewhere-settle (λ u. u ≡ t) y task.id o here) [
        | inl old ↦ unpolled t old
        | inr (f, e, same) ↦ moved t f e same
      ];
      reached = λ a lt. elim (eq_cases task.id a) [
        | inl same ↦ polled_reached o refl a same
        | inr other ↦ others_reached a lt other
      ];
    }

-- At the start each task has its whole job to do.
module _ ⦃S : SlabApi⦄ ⦃B : BufferApi⦄ ⦃U : UringApi⦄ where
  record Fresh (jobs : TaskId → Job) (x : Executor Job) : Type 0 where
    whole : (t : Task Job) → Here x t → jobs t.id ≡ t.future
    all : (a : TaskId) → a < x.next_id → Lives x a

  spawn-Fresh :
      (jobs : TaskId → Job) (x : Executor Job) (j : Job)
      → jobs x.next_id ≡ j
      → Fresh jobs x
      → Fresh jobs (spawn x j)
  unfolding spawn
  spawn-Fresh jobs x j planned v = record {
    whole = spawned_whole;
    all = λ a lt. elim (eq_cases x.next_id a) [
      | inl same ↦ queued (inl same)
      | inr other ↦
          spawn-Somewhere (λ (t : Task Job). t.id ≡ a) x j (v.all a (omega (arith, other)))
    ];
  }
    where
      spawned_whole : (t : Task Job) → Here (spawn x j) t → jobs t.id ≡ t.future
      spawned_whole t (queued (inl e)) = subst (λ (u : Task Job). jobs u.id ≡ u.future) e planned
      spawned_whole t (queued (inr m)) = v.whole t (queued m)
      spawned_whole t (waits k u g e) = v.whole t (waits k u g e)

  spawn_all-Fresh :
      (jobs : TaskId → Job) (x : Executor Job) (js : List Job)
      → ((k : ℕ) → k < length js → jobs (x.next_id + k) ≡ job_at js k)
      → Fresh jobs x
      → Fresh jobs (spawn_all x js) × ((spawn_all x js).next_id ≡ x.next_id + length js)
  unfolding spawn_all spawn job_at
  spawn_all-Fresh jobs x [] planned v = (v, omega arith)
  spawn_all-Fresh jobs x (j ∷ js) planned v =
      let first : jobs x.next_id ≡ j = ap jobs (omega arith) ∙ planned 0 (omega arith) in
      let (v', ids) =
        spawn_all-Fresh jobs (spawn x j) js
          (λ k lt. ap jobs (omega arith) ∙ planned (suc k) (omega (arith, lt)))
          (spawn-Fresh jobs x j first v) in
      (v', omega (arith, ids))

  pub start-Follows : (js : List Job) → Follows (job_at js) (length js) (λ a. []) (spawn_all new js)
  unfolding job_after new
  start-Follows js =
      let nobody : Fresh (job_at js) new = record {
        whole = λ t here.
            absurd (live-Somewhere (λ u. u ≡ t) new here (omega (arith, S.len-new {A = Task Job})));
        all = λ a lt. absurd (omega (arith, lt));
      } in
      let (v, ids) =
        spawn_all-Fresh (job_at js) new js (λ k lt. ap (job_at js) (omega arith)) nobody in
      record {
        followed = λ t here. ap some (v.whole t here);
        reached = λ a lt. inl (v.all a (omega (arith, ids, lt)));
      }
