-- ===== src/Futures/Exclusion/Invariant.antt =====
-- About src/futures/mutex.rs: where the token of a mutex is.
use trale.Prelude.{
  ℕ, suc, ◌≡◌, ◌≤◌, ◌⊎◌, refl, subst, ◌∙◌, inl, inr, Bool, true, false, not, ◌&&◌, ◌||◌, ◌==◌,
  ==_refl, Bool-cases, some, OnRet-eq, arith, same_fd,
}
use trale.Slab.{SlabApi}
use trale.RingBuffer.{BufferApi}
use trale.Uring.{UringApi}
use trale.Libc.{LibcApi, World}
use trale.Futures.Events.{Event, EventWaiter}
use trale.Futures.Locks.{Mutex, Lock, waiting, returned, poll_lock, drop}
use trale.Futures.Exclusion.Defs.{
  Shared, Step, poll, complete, release, abandon, other, Reach, here, next, start, set, is_ready,
}
use trale.Futures.Exclusion.Polls.{
  Apart, close-Keeps, poll_lock-Polled, poll_lock-IsTold, drop-one_more, Polled,
}

module _ ⦃L : LibcApi⦄ where
  -- The attempt has the token: its read has been completed, or its guard is held.
  abbrev pub owns : Shared → ℕ → Bool
  owns s j = s.drawn j || s.guarded j

  -- The token is the count of the event or with one attempt.
  pub record IsSingle (count : ℕ) (s : Shared) : Type 0 where
    pub at_most_one : count ≤ 1
    pub in_event : (j : ℕ) → owns s j ≡ true → count ≡ 0
    pub unique : (i j : ℕ) → owns s i ≡ true → owns s j ≡ true → i ≡ j
    pub one_way : (j : ℕ) → s.drawn j ≡ true → s.guarded j ≡ false
    pub somewhere : (count ≡ 1) ⊎ ((j : ℕ) × (owns s j ≡ true))

  pub record Inv (m : Event) (e : ℕ) (s : Shared) : Type 0 where
    pub event : L.event_of s.world m.inner ≡ some e
    pub apart : (j : ℕ) → Apart m (s.lock j)
    pub single : IsSingle (L.count s.world e) s

  -- The token goes from the event to attempt `j`.
  take-IsSingle :
      (c : ℕ) (s : Shared) (j : ℕ) (w : World)
      → IsSingle (suc c) s
      → IsSingle c
          (record s { world = w; reading = set s.reading j false; drawn = set s.drawn j true })
  take-IsSingle c s j w v = record {
    at_most_one = omega (arith, v.at_most_one);
    in_event = λ i h. ground (arith, v.at_most_one);
    unique = λ i k h g. ground (arith, v.in_event i, v.in_event k);
    one_way = λ i h. ground (arith, v.in_event i, v.one_way i);
    somewhere = inr (j, rw (==_refl j) refl);
  }

  -- The token goes from attempt `j` back to the event.
  give-IsSingle :
      (c : ℕ) (s : Shared) (j : ℕ) (w : World)
      → s.guarded j ≡ true
      → IsSingle c s
      → IsSingle (suc c) (record s { world = w; guarded = set s.guarded j false })
  give-IsSingle c s j w held v = record {
    at_most_one = ground (arith, v.in_event j);
    in_event = λ i h. ground (arith, v.unique i j, v.one_way j);
    unique = λ i k h g. ground (arith, v.unique i j, v.unique k j, v.one_way j);
    one_way = λ i h. ground (arith, v.one_way i);
    somewhere = inl (ground (arith, v.in_event j));
  }

  -- A poll that is ready turns the completed read of attempt `j` into a guard.
  poll-IsSingle :
      (c : ℕ) (s : Shared) (j : ℕ) (l : Lock) (w : World) (rd : ℕ → Bool) (b : Bool)
      → (b ≡ true → s.drawn j ≡ true)
      → IsSingle c s
      → IsSingle c (record {
        world = w;
        lock = set s.lock j l;
        reading = rd;
        drawn = set s.drawn j (s.drawn j && not b);
        guarded = set s.guarded j (s.guarded j || b);
      })
  poll-IsSingle c s j l w rd b told v = record {
    at_most_one = v.at_most_one;
    in_event = λ i h. ground (arith, v.in_event i);
    unique = λ i k h g. ground (arith, v.unique i k);
    one_way = λ i h. ground (arith, v.one_way i);
    somewhere = elim v.somewhere [ inl one ↦ inl one | inr (i, o) ↦ inr (i, ground arith) ];
  }

  -- Who owns the token does not depend on the world and the futures.
  same-IsSingle :
      (c : ℕ) (s : Shared) (w : World) (lock : ℕ → Lock)
      → IsSingle c s
      → IsSingle c (record s { world = w; lock = lock })
  same-IsSingle c s w lock v = record {
    at_most_one = v.at_most_one;
    in_event = v.in_event;
    unique = v.unique;
    one_way = v.one_way;
    somewhere = v.somewhere;
  }

  pub start-Inv :
      (m : Event) (e : ℕ) (w : World)
      → L.event_of w m.inner ≡ some e
      → L.count w e ≡ 1
      → Inv m e (start w)
  start-Inv m e w is one = record {
    event = is;
    apart = λ j. tt;
    single = record {
      at_most_one = omega (arith, one);
      in_event = λ j h. absurd (cc);
      unique = λ i j h g. absurd (cc);
      one_way = λ j h. refl;
      somewhere = inl one;
    };
  }

  Apart-set :
      (m : Event) (lock : ℕ → Lock) (j : ℕ) (l : Lock)
      → ((i : ℕ) → Apart m (lock i))
      → Apart m l
      → (i : ℕ) → Apart m (set lock j l i)
  Apart-set m lock j l all one i = elim (Bool-cases (j == i)) [
    | inl same ↦ rw same one
    | inr other_one ↦ rw other_one (all i)
  ]

  waiting-Apart :
      (m : Event) (l : Lock) (evt : Event) (waiter : EventWaiter)
      → l ≡ waiting evt waiter
      → Apart m l
      → same_fd evt.inner m.inner ≡ false
  waiting-Apart m l evt waiter e h = subst (Apart m) e h

  module _ ⦃S : SlabApi⦄ ⦃B : BufferApi⦄ ⦃U : UringApi⦄ (T : Type 0) {A : Type 0} (m : Mutex A)
      (e : ℕ) where
    pub Step-Inv : {s t : Shared} → Step T m e s t → Inv m.evt e s → Inv m.evt e t
    Step-Inv (poll s j ptr waker r r' p l w polled told) v =
        let (k, apart) =
          OnRet-eq (Polled m.evt e s.world) (poll_lock m ptr (s.lock j) waker r s.world)
            (p, l, r', w) (poll_lock-Polled m e (s.lock j) ptr waker r s.world v.event (v.apart j))
            polled in
        let guard =
          OnRet-eq _ (poll_lock m ptr (s.lock j) waker r s.world) (p, l, r', w)
            (poll_lock-IsTold m (s.drawn j) (s.lock j) ptr waker r s.world told) polled in
        record {
          event = k.event;
          apart = Apart-set m.evt s.lock j l v.apart apart;
          single = rw k.same_count (poll-IsSingle _ s j l w _ (is_ready p) guard v.single);
        }
    Step-Inv (complete s j w flies takes) v = record {
      event = takes.same_events m.evt.inner ∙ v.event;
      apart = v.apart;
      single = take-IsSingle _ s j w (subst (λ c. IsSingle c s) takes.one_less v.single);
    }
    Step-Inv (release s j w held dropped) v =
        let (still, more) =
          OnRet-eq _ (drop (record { mtx = m.evt }) s.world) w
            (drop-one_more (record { mtx = m.evt }) e s.world v.event) dropped in
        record {
          event = still;
          apart = v.apart;
          single = rw more (give-IsSingle _ s j w held v.single);
        }
    Step-Inv (abandon s j evt waiter held) v =
        let k =
          close-Keeps m.evt e s.world evt.inner v.event
            (waiting-Apart m.evt (s.lock j) evt waiter held (v.apart j)) in
        record {
          event = k.event;
          apart = Apart-set m.evt s.lock j returned v.apart tt;
          single = rw k.same_count (same-IsSingle _ s _ _ v.single);
        }
    Step-Inv (other s w spares) v = record {
      event = spares.same_event m.evt.inner v.event;
      apart = v.apart;
      single = rw spares.same_count (same-IsSingle _ s w s.lock v.single);
    }

    pub Reach-Inv : {s t : Shared} → Reach T m e s t → Inv m.evt e s → Inv m.evt e t
    Reach-Inv here v = v
    Reach-Inv (next r st) v = Step-Inv st (Reach-Inv r v)
