-- ===== src/Task/Somewhere.antt =====
-- About `Executor` of src/task.rs: a task with some property stays in it until it is polled.
use trale.Prelude.{
  ℕ, ◌≡◌, ◌≢◌, refl, sym, subst, ◌∙◌, ◌⊎◌, inl, inr, none, some, List, [], ◌∷◌, Option,
  Option-cases, arith, eq_cases, length,
}
use trale.Slab.{SlabApi}
use trale.Task.Defs.{
  Task, TaskId, Executor, wake, wake_all, spawn, Effect, spawns, wakes, act_all, act, settle, park,
}
use trale.Task.Wakes.{wake_hit, wake_miss, live}

module _ ⦃S : SlabApi⦄ {F : Type 0} (Q : Task F → Type 0) where
  abbrev pub IsAmong : List (Task F) → Type 0
  IsAmong [] = ⊥
  IsAmong (t ∷ ts) = Q t ⊎ IsAmong ts

  pub data Somewhere (x : Executor F) : Type 0 where
    queued : IsAmong x.run_q → Somewhere x
    waits : (k : ℕ) (t : Task F) → S.get x.waiting k ≡ some t → Q t → Somewhere x

  pub wake-Somewhere : (x : Executor F) (a : TaskId) → Somewhere x → Somewhere (wake x a)
  wake-Somewhere x a (queued m) = elim (Option-cases (S.get x.waiting (x.ids a))) [
    | inl missing ↦ queued (rw ((wake_miss x a missing).0) m)
    | inr (task, found) ↦ queued (rw ((wake_hit x a task found).0) (inr m))
  ]
  wake-Somewhere x a (waits k t g q) = elim (Option-cases (S.get x.waiting (x.ids a))) [
    | inl missing ↦ waits k t ((wake_miss x a missing).1 k ∙ g) q
    | inr (task, found) ↦
        let (run, changes, i, n) = wake_hit x a task found in
        elim (eq_cases (x.ids a) k) [
          | inl same ↦ let moved : task ≡ t = cc in queued (rw run (inl (subst Q (sym moved) q)))
          | inr other ↦ waits k t (ground (arith, changes k)) q
        ]
  ]

  pub wake_all-Somewhere :
      (x : Executor F) (as' : List TaskId) → Somewhere x → Somewhere (wake_all x as')
  unfolding wake_all
  wake_all-Somewhere x [] h = h
  wake_all-Somewhere x (a ∷ as') h = wake_all-Somewhere (wake x a) as' (wake-Somewhere x a h)

  -- No wake makes up a task.
  pub Somewhere-wake : (x : Executor F) (a : TaskId) → Somewhere (wake x a) → Somewhere x
  Somewhere-wake x a s = elim (Option-cases (S.get x.waiting (x.ids a))) [
    | inl missing ↦ missed missing s
    | inr (task, found) ↦ hit task found s
  ]
    where
      missed : S.get x.waiting (x.ids a) ≡ none → Somewhere (wake x a) → Somewhere x
      missed missing (queued m) = queued (subst IsAmong ((wake_miss x a missing).0) m)
      missed missing (waits k t g q) = waits k t (sym ((wake_miss x a missing).1 k) ∙ g) q

      hit :
          (task : Task F)
          → S.get x.waiting (x.ids a) ≡ some task
          → Somewhere (wake x a)
          → Somewhere x
      hit task found (queued m) = was_waiting (subst IsAmong ((wake_hit x a task found).0) m)
        where
          was_waiting : IsAmong (task ∷ x.run_q) → Somewhere x
          was_waiting (inl q) = waits (x.ids a) task found q
          was_waiting (inr m) = queued m
      hit task found (waits k t g q) = waits k t (ground (arith, (wake_hit x a task found).1 k)) q

  pub Somewhere-wake_all :
      (x : Executor F) (as' : List TaskId) → Somewhere (wake_all x as') → Somewhere x
  unfolding wake_all
  Somewhere-wake_all x [] h = h
  Somewhere-wake_all x (a ∷ as') h = Somewhere-wake x a (Somewhere-wake_all (wake x a) as' h)

  -- A task that is there after a poll was there, or is the one that was polled.
  pub Somewhere-settle :
      (x : Executor F) (a : TaskId) (o : Option F)
      → Somewhere (settle x a o)
      → Somewhere x ⊎ ((f : F) × (o ≡ some f) × Q (record { id = a; future = f }))
  unfolding park
  Somewhere-settle x a none h = inl h
  Somewhere-settle x a (some f) (queued m) = inl (queued m)
  Somewhere-settle x a (some f) (waits k t g q) =
      let new : Task F = record { id = a; future = f } in
      elim (eq_cases (S.vacant_key x.waiting) k) [
        | inl same ↦
            let e : t ≡ new = ground (arith, S.get-insert x.waiting new k) in
            inr (f, refl, subst Q e q)
        | inr other ↦ inl (waits k t (ground (arith, S.get-insert x.waiting new k)) q)
      ]

  pub spawn-Somewhere : (x : Executor F) (f : F) → Somewhere x → Somewhere (spawn x f)
  unfolding spawn
  spawn-Somewhere x f (queued m) = queued (inr m)
  spawn-Somewhere x f (waits k t g q) = waits k t g q

  pub act_all-Somewhere :
      (x : Executor F) (es : List (Effect F)) → Somewhere x → Somewhere (act_all x es)
  unfolding act_all act
  act_all-Somewhere x [] h = h
  act_all-Somewhere x (spawns f ∷ es) h = act_all-Somewhere (spawn x f) es (spawn-Somewhere x f h)
  act_all-Somewhere x (wakes a ∷ es) h = act_all-Somewhere (wake x a) es (wake-Somewhere x a h)

  park-Somewhere : (x : Executor F) (a : TaskId) (f : F) → Somewhere x → Somewhere (park x a f)
  unfolding park
  park-Somewhere x a f (queued m) = queued m
  park-Somewhere x a f (waits k t g q) =
      waits k t
        (ground
          (arith, S.get-insert x.waiting (record { id = a; future = f }) k, S.get-vacant x.waiting))
        q

  pub settle-Somewhere :
      (x : Executor F) (a : TaskId) (o : Option F) → Somewhere x → Somewhere (settle x a o)
  settle-Somewhere x a none h = h
  settle-Somewhere x a (some f) h = park-Somewhere x a f h

  -- A parked task is there.
  pub park_there :
      (x : Executor F) (a : TaskId) (f : F)
      → Q (record { id = a; future = f })
      → Somewhere (park x a f)
  unfolding park
  park_there x a f q =
      let new : Task F = record { id = a; future = f } in
      waits (S.vacant_key x.waiting) new
        (ground (arith, S.get-insert x.waiting new (S.vacant_key x.waiting))) q

  tail-IsAmong : (t : Task F) (ts : List (Task F)) → ¬ Q t → IsAmong (t ∷ ts) → IsAmong ts
  tail-IsAmong t ts other (inl q) = absurd (other q)
  tail-IsAmong t ts other (inr m) = m

  -- It stays when another task is taken off the run queue.
  pub pop-Somewhere :
      (x : Executor F) (t : Task F) (rest : List (Task F))
      → x.run_q ≡ t ∷ rest
      → ¬ Q t
      → Somewhere x
      → Somewhere (record x { run_q = rest })
  pop-Somewhere x t rest e other (queued m) = queued (tail-IsAmong t rest other (subst IsAmong e m))
  pop-Somewhere x t rest e other (waits k u g q) = waits k u g q

  pub Somewhere-pop :
      (x : Executor F) (t : Task F) (rest : List (Task F))
      → x.run_q ≡ t ∷ rest
      → Somewhere (record x { run_q = rest })
      → Somewhere x
  Somewhere-pop x t rest e (queued m) = queued (subst IsAmong (sym e) (inr m))
  Somewhere-pop x t rest e (waits k u g q) = waits k u g q

  empty_of_length : (ts : List (Task F)) → length ts ≡ 0 → ts ≡ []
  empty_of_length [] e = refl
  empty_of_length (t ∷ ts) e = absurd (omega arith)

  -- An executor without tasks has no such task.
  pub live-Somewhere : (x : Executor F) → Somewhere x → live x ≢ 0
  live-Somewhere x (queued m) e =
      let none_queued : x.run_q ≡ [] = empty_of_length x.run_q (omega arith) in
      subst IsAmong none_queued m
  live-Somewhere x (waits k t g q) e = absurd (cc (S.get_of_len x.waiting k (omega arith)))
