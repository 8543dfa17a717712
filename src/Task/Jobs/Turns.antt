-- ===== src/Task/Jobs/Turns.antt =====
-- What is to hold between two turns, and the work that is left: a turn keeps the one and uses up
-- some of the other.
use trale.Prelude.{
  ℕ, zero, suc, ◌+◌, ◌-◌, ◌*◌, ◌≤◌, ◌<◌, ◌≡◌, ◌≢◌, refl, sym, ap, subst, inl, inr, eq_cases, Option,
  none, some, List, ◌∷◌, ret, arith, length, ℤ,
}
use trale.Slab.{SlabApi}
use trale.RingBuffer.{BufferApi}
use trale.Uring.{UringApi, entries}
use trale.Reactor.System.Defs.{System, update}
use trale.Reactor.Io.Value.{IoResult}
use trale.Task.Defs.{Task, TaskId, Executor, run_task, settle, act_all, park}
use trale.Task.Wakes.{live}
use trale.Task.Jobs.Defs.{Job, World, poll, poll_job, answer, react, counted}
use trale.Task.Jobs.Fair.{Fair}
use trale.Task.Jobs.Following.{Follows, settle-Follows}
use trale.Task.Jobs.Keeps.{settle-Fair, polled, away}

-- The sum of the first values.
unfoldable pub total : ℕ → (ℕ → ℕ) → ℕ
total zero f = 0
total (suc n) f = total n f + f n

total-ext : (n : ℕ) (f g : ℕ → ℕ) → ((i : ℕ) → i < n → g i ≡ f i) → total n g ≡ total n f
unfolding total
total-ext zero f g h = refl
total-ext (suc n) f g h =
    omega (arith, h n (omega arith), total-ext n f g (λ i lt. h i (omega (arith, lt))))

-- It is less if one value is.
total-less :
    (n a : ℕ) (f g : ℕ → ℕ)
    → a < n
    → g a < f a
    → ((b : ℕ) → a ≢ b → g b ≡ f b)
    → total n g < total n f
unfolding total
total-less zero a f g lt less same = absurd (omega arith)
total-less (suc n) a f g lt less same = elim (eq_cases a n) [
  | inl last ↦
      omega (arith, total-ext n f g (λ i below. same i (omega arith)), ap f last, ap g last)
  | inr other ↦ omega (arith, total-less n a f g (omega arith) less same, same n other)
]

pub total-const : (n c : ℕ) (f : ℕ → ℕ) → ((i : ℕ) → f i ≤ c) → total n f ≤ n * c
unfolding total
total-const zero c f h = omega arith
total-const (suc n) c f h = ground (arith, h n, total-const n c f h)

module _ ⦃S : SlabApi⦄ ⦃B : BufferApi⦄ ⦃U : UringApi⦄ (m n : ℕ) where
  -- the polls that are left
  abbrev pub work : World → ℕ
  work w = total n (λ a. suc m - w.polls a)

  module _ (jobs : TaskId → Job) where
    pub record Good (x : Executor Job) (w : World) : Type 0 where
      pub fair : Fair m n w.system w.polls x
      pub follow : Follows jobs n w.answers x
      -- there is room for the operation of every queued task
      pub space : length x.run_q ≤ U.room w.system.ring.uring
      pub few : live x ≤ entries
      pub calm : w.panicked ≡ none
      pub bounded : (a : TaskId) → w.polls a ≤ suc m

    module _ (x : Executor Job) (task : Task Job) (rest : List (Task Job)) (w : World)
        (popped : x.run_q ≡ task ∷ rest) (good : Good x w) where
      run_q-settle :
          (y : Executor Job) (a : TaskId) (o : Option Job) → (settle y a o).run_q ≡ y.run_q
      unfolding park
      run_q-settle y a none = refl
      run_q-settle y a (some job) = refl

      live-settle :
          (y : Executor Job) (a : TaskId) (o : Option Job) → live (settle y a o) ≤ suc (live y)
      unfolding park
      live-settle y a none = omega arith
      live-settle y a (some job) =
          omega (arith, S.len-insert y.waiting (record { id = a; future = job }))

      counted-less :
          (left : ℕ)
          → w.polls task.id + suc left ≤ suc m
          → work (record w { polls = counted w.polls task.id }) < work w
      counted-less left budget =
          total-less n task.id (λ a. suc m - w.polls a) (λ a. suc m - counted w.polls task.id a)
            (omega (
              arith,
              (away m n x task rest w.system w.polls popped good.fair).1.allocated,
              good.fair.ids,
            ))
            (ground (arith, budget)) (λ b other. ground arith)

      run_task_eq :
          (o : Option Job) (rs : List (IoResult ℤ)) (t : System TaskId)
          → poll_job task.future task.id (w.answers task.id) w.system ≡ ret (o, rs, t)
          → run_task poll react (record x { run_q = rest }) task w ≡ (
            settle (record x { run_q = rest }) task.id o,
            record w {
              system = t;
              polls = counted w.polls task.id;
              answers = update w.answers task.id rs;
            },
          )
      unfolding run_task poll answer act_all
      run_task_eq o rs t eq = rw eq refl

      -- A turn's poll keeps all of it and uses up some of the work.
      pub keep :
          let r = run_task poll react (record x { run_q = rest }) task w in
          Good r.0 r.1 × (work r.1 < work w)
      keep =
          let y : Executor Job = record x { run_q = rest } in
          let one_more : length x.run_q ≡ suc (length rest) = ap length popped in
          let room : U.room w.system.ring.uring ≡ suc (U.room w.system.ring.uring - 1) =
            omega (arith, one_more, good.space) in
          let (left, (o, rs, t, eq, went, after, leads), budget) =
            polled m n x task rest w.system w.polls popped good.fair
              (U.room w.system.ring.uring - 1) (w.answers task.id) room in
          subst (λ r. Good r.0 r.1 × (work r.1 < work w)) (sym (run_task_eq o rs t eq))
            (
              record {
                fair =
                    settle-Fair m n x task rest w.system w.polls popped good.fair t left budget went
                      o after;
                follow =
                    settle-Follows jobs n w.answers x task rest popped good.fair.tasks good.follow o
                      rs leads;
                space =
                    omega (
                      arith,
                      ap length (run_q-settle y task.id o),
                      one_more,
                      good.space,
                      went.room,
                    );
                few = omega (arith, live-settle y task.id o, one_more, good.few);
                calm = good.calm;
                bounded = λ a. ground (arith, budget, good.bounded a);
              },
              counted-less left budget,
            )
