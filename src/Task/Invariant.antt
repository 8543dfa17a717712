-- ===== src/Task/Invariant.antt =====
-- About src/task.rs: where tasks are, and what their cells hold.
use trale.Prelude.{
  ℕ, suc, ◌<◌, ◌≡◌, ◌≢◌, sym, subst, ◌∙◌, inl, inr, none, some, Option, List, [], ◌∷◌, Option-cases,
  eq_cases, arith,
}
use trale.Slab.{SlabApi}
use trale.Task.Defs.{
  Task, TaskId, Executor, wake, wake_all, Effect, spawns, wakes, act, act_all, park, settle, spawn,
}
use trale.Task.Wakes.{wake_hit, wake_miss}

module _ {F : Type 0} where
  abbrev pub Absent : TaskId → List (Task F) → Type 0
  Absent a [] = Unit {0}
  Absent a (t ∷ ts) = (t.id ≢ a) × Absent a ts

  abbrev pub Distinct : List (Task F) → Type 0
  Distinct [] = Unit {0}
  Distinct (t ∷ ts) = Absent t.id ts × Distinct ts

  abbrev pub AllBelow : TaskId → List (Task F) → Type 0
  AllBelow n [] = Unit {0}
  AllBelow n (t ∷ ts) = (t.id < n) × AllBelow n ts

  AllBelow-suc : (n : TaskId) (ts : List (Task F)) → AllBelow n ts → AllBelow (suc n) ts
  AllBelow-suc n [] h = tt
  AllBelow-suc n (t ∷ ts) h = (omega arith, AllBelow-suc n ts h.1)

  Absent-of_below : (n : TaskId) (ts : List (Task F)) → AllBelow n ts → Absent n ts
  Absent-of_below n [] h = tt
  Absent-of_below n (t ∷ ts) h = (omega arith, Absent-of_below n ts h.1)

module _ ⦃S : SlabApi⦄ {F : Type 0} where
  pub record Inv (x : Executor F) : Type 0 where
    pub cells : (k : ℕ) (t : Task F) → S.get x.waiting k ≡ some t → x.ids t.id ≡ k
    pub apart : (k : ℕ) (t : Task F) → S.get x.waiting k ≡ some t → Absent t.id x.run_q
    pub distinct : Distinct x.run_q
    pub old_waiting : (k : ℕ) (t : Task F) → S.get x.waiting k ≡ some t → t.id < x.next_id
    pub old_queued : AllBelow x.next_id x.run_q

  -- The task that is being polled is nowhere in the executor.
  pub record Away (x : Executor F) (a : TaskId) : Type 0 where
    pub not_queued : Absent a x.run_q
    pub not_waiting : (k : ℕ) (t : Task F) → S.get x.waiting k ≡ some t → t.id ≢ a
    pub allocated : a < x.next_id

  pub wake-Inv : (x : Executor F) (a : TaskId) → Inv x → Inv (wake x a)
  wake-Inv x a v = elim (Option-cases (S.get x.waiting (x.ids a))) [
    | inl missing ↦
        let (q, w, i, n) = wake_miss x a missing in
        record {
          cells = λ k t p. rw i (v.cells k t (sym (w k) ∙ p));
          apart = λ k t p. rw q (v.apart k t (sym (w k) ∙ p));
          distinct = rw q v.distinct;
          old_waiting = λ k t p. rw n (v.old_waiting k t (sym (w k) ∙ p));
          old_queued = rw q (subst (λ m. AllBelow m x.run_q) (sym n) v.old_queued);
        }
    | inr (task, found) ↦
        let (q, w, i, n) = wake_hit x a task found in
        record {
          cells = λ k t p. rw i (v.cells k t (ground (arith, w k)));
          apart = λ k t p. rw q (
            λ e. ground (arith, w k, v.cells k t, v.cells (x.ids a) task),
            v.apart k t (ground (arith, w k)),
          );
          distinct = rw q (v.apart (x.ids a) task found, v.distinct);
          old_waiting = λ k t p. rw n (v.old_waiting k t (ground (arith, w k)));
          old_queued = rw q (
            rw n (v.old_waiting (x.ids a) task found),
            subst (λ m. AllBelow m x.run_q) (sym n) v.old_queued,
          );
        }
  ]

  pub wake-Away : (x : Executor F) (a b : TaskId) → Inv x → Away x b → Away (wake x a) b
  wake-Away x a b v w = elim (Option-cases (S.get x.waiting (x.ids a))) [
    | inl missing ↦
        let (q, g, i, n) = wake_miss x a missing in
        record {
          not_queued = rw q w.not_queued;
          not_waiting = λ k t p. w.not_waiting k t (sym (g k) ∙ p);
          allocated = rw n w.allocated;
        }
    | inr (task, found) ↦
        let (q, g, i, n) = wake_hit x a task found in
        record {
          not_queued = rw q (w.not_waiting (x.ids a) task found, w.not_queued);
          not_waiting = λ k t p. w.not_waiting k t (ground (arith, g k));
          allocated = rw n w.allocated;
        }
  ]

  pub spawn-Inv : (x : Executor F) (f : F) → Inv x → Inv (spawn x f)
  unfolding spawn
  spawn-Inv x f v = record {
    cells = λ k t p. ground (arith, v.cells k t p, v.old_waiting k t p);
    apart = λ k t p. (λ e. omega (arith, v.old_waiting k t p), v.apart k t p);
    distinct = (Absent-of_below x.next_id x.run_q v.old_queued, v.distinct);
    old_waiting = λ k t p. omega (arith, v.old_waiting k t p);
    old_queued = (omega arith, AllBelow-suc x.next_id x.run_q v.old_queued);
  }

  spawn-Away : (x : Executor F) (f : F) (b : TaskId) → Away x b → Away (spawn x f) b
  unfolding spawn
  spawn-Away x f b w = record {
    not_queued = (λ e. omega (arith, w.allocated), w.not_queued);
    not_waiting = w.not_waiting;
    allocated = omega (arith, w.allocated);
  }

  pub act_all-keeps :
      (x : Executor F) (es : List (Effect F)) (b : TaskId)
      → Inv x
      → Away x b
      → Inv (act_all x es) × Away (act_all x es) b
  unfolding act_all act
  act_all-keeps x [] b v w = (v, w)
  act_all-keeps x (spawns f ∷ es) b v w =
      act_all-keeps (spawn x f) es b (spawn-Inv x f v) (spawn-Away x f b w)
  act_all-keeps x (wakes a ∷ es) b v w =
      act_all-keeps (wake x a) es b (wake-Inv x a v) (wake-Away x a b v w)

  pub wake_all-Inv : (x : Executor F) (as' : List TaskId) → Inv x → Inv (wake_all x as')
  unfolding wake_all
  wake_all-Inv x [] v = v
  wake_all-Inv x (a ∷ as') v = wake_all-Inv (wake x a) as' (wake-Inv x a v)

  park-Inv : (x : Executor F) (a : TaskId) (f : F) → Inv x → Away x a → Inv (park x a f)
  unfolding park
  park-Inv x a f v w =
      let new : Task F = record { id = a; future = f } in
      record {
        cells =
            λ k t p. ground (arith, S.get-insert x.waiting new k, v.cells k t, w.not_waiting k t);
        apart = λ k t p. elim (eq_cases (S.vacant_key x.waiting) k) [
          | inl same ↦
              let e : a ≡ t.id = ground (arith, S.get-insert x.waiting new k) in
              subst (λ b. Absent b x.run_q) e w.not_queued
          | inr other ↦ v.apart k t (ground (arith, S.get-insert x.waiting new k))
        ];
        distinct = v.distinct;
        old_waiting =
            λ k t p. ground (arith, S.get-insert x.waiting new k, v.old_waiting k t, w.allocated);
        old_queued = v.old_queued;
      }

  pub settle-Inv :
      (x : Executor F) (a : TaskId) (o : Option F) → Inv x → Away x a → Inv (settle x a o)
  settle-Inv x a none v w = v
  settle-Inv x a (some f) v w = park-Inv x a f v w

  -- Taking the next task off the run queue.
  pub pop-keeps :
      (x : Executor F) (task : Task F) (rest : List (Task F))
      → x.run_q ≡ task ∷ rest
      → Inv x
      → Inv (record x { run_q = rest }) × Away (record x { run_q = rest }) task.id
  pop-keeps x task rest e v =
      let apart : (k : ℕ) (t : Task F) → S.get x.waiting k ≡ some t → Absent t.id (task ∷ rest) =
        λ k t p. subst (Absent t.id) e (v.apart k t p) in
      let distinct : Distinct (task ∷ rest) = subst Distinct e v.distinct in
      let below : AllBelow x.next_id (task ∷ rest) = subst (AllBelow x.next_id) e v.old_queued in
      (
        record {
          cells = v.cells;
          apart = λ k t p. (apart k t p).1;
          distinct = distinct.1;
          old_waiting = v.old_waiting;
          old_queued = below.1;
        },
        record {
          not_queued = distinct.0;
          not_waiting = λ k t p same. (apart k t p).0 (sym same);
          allocated = below.0;
        },
      )
