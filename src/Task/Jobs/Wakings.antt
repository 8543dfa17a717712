-- ===== src/Task/Jobs/Wakings.antt =====
-- The reactor's part: a completion is recorded and wakes the task that awaits it.
use trale.Prelude.{ℕ, ◌≡◌, ◌≢◌, refl, sym, ap, subst, ◌∙◌, none, some, arith}
use trale.Slab.{SlabApi, Changes}
use trale.RingBuffer.{BufferApi}
use trale.Uring.{UringApi, Ring, Cqe}
use trale.Reactor.Result.Oneshot.{ResultState, pending, set_to}
use trale.Reactor.Ring.Defs.{ReactorInner, PendingIo, oneshot, next}
use trale.Reactor.Io.Oneshot.{submitted}
use trale.Reactor.System.Defs.{System}
use trale.Reactor.System.Invariant as System
use trale.Reactor.System.Lanes.{oneshot_lane}
use trale.Reactor.System.Delivery.{waiting_slot}
use trale.Task.Defs.{Task, TaskId, Executor, wake}
use trale.Task.Wakes.{wake_hit}
use trale.Task.Invariant.{wake-Inv}
use trale.Task.Somewhere.{wake-Somewhere}
use trale.Task.Jobs.Defs.{Job}
use trale.Task.Jobs.Fair.{All, All-map, Awaits, Ready, resumes, Fair, Awaits-move, Ready-move}

module _ ⦃S : SlabApi⦄ ⦃B : BufferApi⦄ ⦃U : UringApi⦄ (m n : ℕ) (s : System TaskId)
    (polls : TaskId → ℕ) (x : Executor Job) (v : Fair m n s polls x) where
  -- The kernel's state changes, and the program's does not.
  pub kernel-Fair :
      (ring : Ring)
      → (let t : System TaskId = record s { ring = record (s.ring) { uring = ring } } in
          System.Inv t)
      → Fair m n (record s { ring = record (s.ring) { uring = ring } }) polls x
  kernel-Fair ring inv =
      let t : System TaskId = record s { ring = record (s.ring) { uring = ring } } in
      record {
        tasks = v.tasks;
        system = inv;
        no_multis = v.no_multis;
        ids = v.ids;
        queued =
            All-map (λ task. Ready-move m s t polls polls task refl refl (λ c w. refl)) x.run_q
              v.queued;
        waits = λ k task g.
            Awaits-move m s t polls polls task refl refl pending (v.waits k task g) refl;
        recorded = v.recorded;
        owned = v.owned;
      }

  -- The next completion, and the record of its operation.
  module _ (c : Cqe) (came : (U.next s.ring.uring).0 ≡ some c) (io : PendingIo TaskId)
      (found : S.get s.ring.pending c.user_data ≡ some io) (task : Task Job)
      (waiting : S.get x.waiting (x.ids io.assoc_obj) ≡ some task) (named : task.id ≡ io.assoc_obj)
      (held : s.oneshots io.assoc_obj ≡ submitted io.result_slab_idx)
      (one : io.kind ≡ oneshot) where
    flies :
        (u : ℕ) (io' : PendingIo TaskId)
        → S.get s.ring.pending u ≡ some io'
        → io'.kind ≡ oneshot
        → (oneshot_lane s).flying u ≡ some io'.result_slab_idx
    flies u io' found' one' = rw (v.system.links.registered u io' found' one', found', one')

    pub here : S.get s.ring.results.oneshot io.result_slab_idx ≡ some pending
    here =
        waiting_slot s io.assoc_obj io.result_slab_idx c.user_data v.system held
          (flies c.user_data io found one)

    module _ (q : ReactorInner TaskId)
        (inv : (let t : System TaskId = record s { ring = q } in System.Inv t))
        (set : Changes s.ring.results.oneshot io.result_slab_idx
          (some (set_to c.result))
          q.results.oneshot)
        (gone : Changes s.ring.pending c.user_data none q.pending)
        (same : q.results.multishot ≡ s.ring.results.multishot) where
      abbrev t : System TaskId
      t = record s { ring = q }

      -- Another slot is in another state.
      kept_slot :
          (i : ℕ) (st : ResultState)
          → S.get s.ring.results.oneshot i ≡ some st
          → st ≢ pending
          → S.get q.results.oneshot i ≡ S.get s.ring.results.oneshot i
      kept_slot i st slot other = ground (arith, set i, here)

      woken_Ready : Ready m t polls task
      woken_Ready =
          let w = v.waits (x.ids io.assoc_obj) task waiting in
          let idx : w.idx ≡ io.result_slab_idx = cc (w.held, held, named) in
          resumes c.result (record {
            opcode = w.opcode;
            continue = w.continue;
            idx = w.idx;
            left = w.left;
            future = w.future;
            held = w.held;
            slot = ground (arith, set w.idx, idx);
            fits = w.fits;
            budget = w.budget;
          })

      vacated :
          (k : ℕ) (u : Task Job)
          → S.get (wake x io.assoc_obj).waiting k ≡ some u
          → (x.ids io.assoc_obj ≢ k) × (S.get x.waiting k ≡ some u)
      vacated k u g =
          let (run, ch, i, next) = wake_hit x io.assoc_obj task waiting in
          (λ e. absurd (ground (arith, ch k)), ground (arith, ch k))

      -- Another waiting task has another slot.
      slots_apart :
          (k : ℕ) (u : Task Job)
          → x.ids io.assoc_obj ≢ k
          → S.get x.waiting k ≡ some u
          → (j : ℕ) → s.oneshots u.id ≡ submitted j
          → io.result_slab_idx ≢ j
      slots_apart k u other g j at e =
          let same_id : io.assoc_obj ≡ u.id =
            v.system.oneshots_kept.handle_unique io.assoc_obj u.id j (rw (held, e)) (rw at) in
          other (ap x.ids same_id ∙ v.tasks.cells k u g)

      still_waits :
          (k : ℕ) (u : Task Job)
          → S.get (wake x io.assoc_obj).waiting k ≡ some u
          → Awaits m t polls pending u
      still_waits k u g =
          let (other, g') = vacated k u g in
          let w = v.waits k u g' in
          Awaits-move m s t polls polls u refl refl pending w
            (ground (arith, set w.idx, slots_apart k u other g' w.idx w.held))

      -- Another record is that of another task.
      records_apart :
          (u : ℕ) (io' : PendingIo TaskId) (w : Task Job)
          → c.user_data ≢ u
          → S.get s.ring.pending u ≡ some io'
          → io'.kind ≡ oneshot
          → S.get x.waiting (x.ids io'.assoc_obj) ≡ some w
          → w.id ≡ io'.assoc_obj
          → s.oneshots io'.assoc_obj ≡ submitted io'.result_slab_idx
          → x.ids io.assoc_obj ≢ x.ids io'.assoc_obj
      records_apart u io' w other p one' found' named' held' e =
          let same_task : task ≡ w = cc (e, waiting, found') in
          let same_obj : io.assoc_obj ≡ io'.assoc_obj = cc (same_task, named, named') in
          let same_idx : io.result_slab_idx ≡ io'.result_slab_idx = cc (same_obj, held, held') in
          other (
            v.system.oneshots_kept.flying_unique c.user_data u io'.result_slab_idx
              (flies c.user_data io found one ∙ ap some same_idx) (flies u io' p one'))

      old_record :
          (u : ℕ) (io' : PendingIo TaskId)
          → S.get q.pending u ≡ some io'
          → (c.user_data ≢ u) × (S.get s.ring.pending u ≡ some io')
      old_record u io' p = (λ e. absurd (ground (arith, gone u)), ground (arith, gone u))

      still_recorded :
          (u : ℕ) (io' : PendingIo TaskId)
          → S.get q.pending u ≡ some io'
          → (w : Task Job) × (S.get
                (wake x io.assoc_obj).waiting
                ((wake x io.assoc_obj).ids io'.assoc_obj)
              ≡ some w)
            × (w.id ≡ io'.assoc_obj)
            × (s.oneshots io'.assoc_obj ≡ submitted io'.result_slab_idx)
            × (io'.kind ≡ oneshot)
      still_recorded u io' p =
          let (run, ch, i, next) = wake_hit x io.assoc_obj task waiting in
          let (other, p') = old_record u io' p in
          let (w, found', named', held', one') = v.recorded u io' p' in
          let apart = records_apart u io' w other p' one' found' named' held' in
          (w, rw i (ground (arith, ch (x.ids io'.assoc_obj), apart, found')), named', held', one')

      -- It wakes the task that awaited it, and everything is as it is to be.
      pub woken-Fair : Fair m n t polls (wake x io.assoc_obj)
      woken-Fair =
          let (run, ch, i, next) = wake_hit x io.assoc_obj task waiting in
          record {
            tasks = wake-Inv x io.assoc_obj v.tasks;
            system = inv;
            no_multis = ap S.len same ∙ v.no_multis;
            ids = next ∙ v.ids;
            queued = subst (All (Ready m t polls)) (sym run) (
              woken_Ready,
              All-map
                  (λ u.
                    Ready-move m s t polls polls u refl refl
                      (λ d w. kept_slot w.idx (set_to d) w.slot (λ e. cc)))
                  x.run_q v.queued,
            );
            waits = still_waits;
            recorded = still_recorded;
            owned =
                λ h j e. wake-Somewhere (λ (u : Task Job). u.id ≡ h) x io.assoc_obj (v.owned h j e);
          }
