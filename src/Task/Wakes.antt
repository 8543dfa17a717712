-- ===== src/Task/Wakes.antt =====
-- About `Wake` for `TaskId` in src/task.rs: single wakes and sequences of them.
use trale.Prelude.{
  ℕ, suc, ◌+◌, ◌≡◌, refl, inl, inr, none, some, List, [], ◌∷◌, length, Option-cases, arith,
}
use trale.Slab.{SlabApi, Changes}
use trale.Task.Defs.{Task, TaskId, Executor, wake, wake_all, Effect, spawns, wakes, act, act_all}

module _ ⦃S : SlabApi⦄ {F : Type 0} (x : Executor F) (a : TaskId) where
  -- A wake through a cell whose key is that of a waiting task moves this task to the end of the
  -- run queue that is popped next, vacates its key, and changes nothing else.
  pub wake_hit :
      (task : Task F)
      → S.get x.waiting (x.ids a) ≡ some task
      → ((wake x a).run_q ≡ task ∷ x.run_q)
        × Changes x.waiting (x.ids a) none (wake x a).waiting
        × ((wake x a).ids ≡ x.ids)
        × ((wake x a).next_id ≡ x.next_id)
  unfolding wake
  wake_hit task h = (
    ground (arith, S.try_remove_value x.waiting (x.ids a)),
    λ j.
        ground
          (arith, S.try_remove_value x.waiting (x.ids a), S.get-try_remove x.waiting (x.ids a) j),
    ground (arith, S.try_remove_value x.waiting (x.ids a)),
    ground (arith, S.try_remove_value x.waiting (x.ids a)),
  )

  pub wake_miss :
      S.get x.waiting (x.ids a) ≡ none
      → ((wake x a).run_q ≡ x.run_q)
        × ((j : ℕ) → S.get (wake x a).waiting j ≡ S.get x.waiting j)
        × ((wake x a).ids ≡ x.ids)
        × ((wake x a).next_id ≡ x.next_id)
  unfolding wake
  wake_miss h = (
    ground (arith, S.try_remove_value x.waiting (x.ids a)),
    λ j.
        ground
          (arith, S.try_remove_value x.waiting (x.ids a), S.get-try_remove x.waiting (x.ids a) j),
    ground (arith, S.try_remove_value x.waiting (x.ids a)),
    ground (arith, S.try_remove_value x.waiting (x.ids a)),
  )

module _ ⦃S : SlabApi⦄ {F : Type 0} where
  -- The number of tasks, waiting or queued.
  abbrev pub live : Executor F → ℕ
  live x = S.len x.waiting + length x.run_q

  -- No wake loses a task or makes one up.
  pub live-wake : (x : Executor F) (a : TaskId) → live (wake x a) ≡ live x
  unfolding wake
  live-wake x a = elim (Option-cases (S.get x.waiting (x.ids a))) [
    | inl missing ↦ ground (
      arith,
      S.try_remove_value x.waiting (x.ids a),
      S.len-try_remove_none x.waiting (x.ids a) missing,
    )
    | inr (task, found) ↦ ground (
      arith,
      S.try_remove_value x.waiting (x.ids a),
      S.len-try_remove x.waiting (x.ids a) task found,
    )
  ]

  pub live-wake_all : (x : Executor F) (as' : List TaskId) → live (wake_all x as') ≡ live x
  unfolding wake_all
  live-wake_all x [] = refl
  live-wake_all x (a ∷ as') = omega (arith, live-wake_all (wake x a) as', live-wake x a)

  -- the tasks that a poll spawns
  abbrev pub spawned : List (Effect F) → ℕ
  spawned [] = 0
  spawned (spawns f ∷ es) = suc (spawned es)
  spawned (wakes a ∷ es) = spawned es

  pub live-act_all :
      (x : Executor F) (es : List (Effect F)) → live (act_all x es) ≡ live x + spawned es
  unfolding act_all act
  live-act_all x [] = omega arith
  live-act_all x (spawns f ∷ es) = omega (arith, live-act_all (act x (spawns f)) es)
  live-act_all x (wakes a ∷ es) = omega (arith, live-act_all (act x (wakes a)) es, live-wake x a)
