-- ===== src/Reactor/Lane/Keeps.antt =====
-- The moves of Lane.Spec and the invariant of a lane.
use trale.Prelude.{
  ℕ, ◌≡◌, ◌∙◌, sym, inl, inr, ◌≢◌, true, false, none, some, eq_cases, Option-cases, Bool-cases,
  arith,
}
use trale.Reactor.Lane.Spec.{
  Slot, Lane, Updates, Same, new_slot, completed, released, Move, stay, submit, finish, take,
  release, Inv,
}

stay-Inv :
    (l m : Lane)
    → Same l.flying m.flying
    → Same l.slots m.slots
    → Same l.handles m.handles
    → Inv l
    → Inv m
stay-Inv l m f s h v = record {
  flying_slot = λ u i q. let (e, a, b) = v.flying_slot u i (sym (f u) ∙ q) in (e, s i ∙ a, b);
  flying_unique = λ u w i p q. v.flying_unique u w i (sym (f u) ∙ p) (sym (f w) ∙ q);
  handle_slot = λ k i q. let (e, a, b) = v.handle_slot k i (sym (h k) ∙ q) in (e, s i ∙ a, b);
  handle_unique = λ j k i p q. v.handle_unique j k i (sym (h j) ∙ p) (sym (h k) ∙ q);
  slot_flying = λ i e q d. let (u, a) = v.slot_flying i e (sym (s i) ∙ q) d in (u, f u ∙ a);
  slot_handle = λ i e q d. let (k, a) = v.slot_handle i e (sym (s i) ∙ q) d in (k, h k ∙ a);
  slot_needed = λ i e q d. v.slot_needed i e (sym (s i) ∙ q) d;
}

module _ (l m : Lane) (u i h : ℕ) (no_op : l.flying u ≡ none) (no_slot : l.slots i ≡ none)
    (no_handle : l.handles h ≡ none) (f : Updates l.flying u (some i) m.flying)
    (s : Updates l.slots i (some new_slot) m.slots) (g : Updates l.handles h (some i) m.handles)
    (v : Inv l) where
  submit-flying_slot :
      (w j : ℕ) → m.flying w ≡ some j → (e : Slot) × (m.slots j ≡ some e) × (e.is_done ≡ false)
  submit-flying_slot w j q = elim (eq_cases u w) [
    | inl same ↦ (new_slot, ground (arith, f w, s j), ground arith)
    | inr other ↦
        let old : l.flying w ≡ some j = ground (arith, f w) in
        let (e, a, b) = v.flying_slot w j old in (e, ground (arith, s j), b)
  ]

  submit-flying_unique : (w x j : ℕ) → m.flying w ≡ some j → m.flying x ≡ some j → w ≡ x
  submit-flying_unique w x j p q =
      ground (arith, f w, f x, v.flying_unique w x j, v.flying_slot w j, v.flying_slot x j)

  submit-handle_slot :
      (k j : ℕ) → m.handles k ≡ some j → (e : Slot) × (m.slots j ≡ some e) × (e.is_dropped ≡ false)
  submit-handle_slot k j q = elim (eq_cases h k) [
    | inl same ↦ (new_slot, ground (arith, g k, s j), ground arith)
    | inr other ↦
        let old : l.handles k ≡ some j = ground (arith, g k) in
        let (e, a, b) = v.handle_slot k j old in (e, ground (arith, s j), b)
  ]

  submit-handle_unique : (k x j : ℕ) → m.handles k ≡ some j → m.handles x ≡ some j → k ≡ x
  submit-handle_unique k x j p q =
      ground (arith, g k, g x, v.handle_unique k x j, v.handle_slot k j, v.handle_slot x j)

  submit-slot_flying :
      (j : ℕ) (e : Slot) → m.slots j ≡ some e → e.is_done ≡ false → (w : ℕ) × (m.flying w ≡ some j)
  submit-slot_flying j e q d = elim (eq_cases i j) [
    | inl same ↦ (u, ground (arith, f u))
    | inr other ↦
        let old : l.slots j ≡ some e = ground (arith, s j) in
        let (w, a) = v.slot_flying j e old d in (w, ground (arith, f w))
  ]

  submit-slot_handle :
      (j : ℕ) (e : Slot)
      → m.slots j ≡ some e
      → e.is_dropped ≡ false
      → (k : ℕ) × (m.handles k ≡ some j)
  submit-slot_handle j e q d = elim (eq_cases i j) [
    | inl same ↦ (h, ground (arith, g h))
    | inr other ↦
        let old : l.slots j ≡ some e = ground (arith, s j) in
        let (w, a) = v.slot_handle j e old d in (w, ground (arith, g w))
  ]

  submit-slot_needed :
      (j : ℕ) (e : Slot) → m.slots j ≡ some e → e.is_done ≡ true → e.is_dropped ≡ false
  submit-slot_needed j e q d = ground (arith, s j, v.slot_needed j e)

  submit-Inv : Inv m
  submit-Inv = record {
    flying_slot = submit-flying_slot;
    flying_unique = submit-flying_unique;
    handle_slot = submit-handle_slot;
    handle_unique = submit-handle_unique;
    slot_flying = submit-slot_flying;
    slot_handle = submit-slot_handle;
    slot_needed = submit-slot_needed;
  }

module _ (l m : Lane) (u i : ℕ) (e : Slot) (op : l.flying u ≡ some i) (slot : l.slots i ≡ some e)
    (f : Updates l.flying u none m.flying) (s : Updates l.slots i (completed e) m.slots)
    (g : Same l.handles m.handles) (v : Inv l) where
  finish-flying_slot :
      (w j : ℕ) → m.flying w ≡ some j → (d : Slot) × (m.slots j ≡ some d) × (d.is_done ≡ false)
  finish-flying_slot w j q =
      let old : l.flying w ≡ some j = ground (arith, f w) in
      let (d, a, b) = v.flying_slot w j old in
      (d, ground (arith, f w, s j, v.flying_unique u w i), b)

  finish-handle_slot :
      (k j : ℕ) → m.handles k ≡ some j → (d : Slot) × (m.slots j ≡ some d) × (d.is_dropped ≡ false)
  finish-handle_slot k j q =
      let (d, a, b) = v.handle_slot k j (ground (arith, g k)) in
      elim (eq_cases i j) [
        | inl same ↦ (record d { is_done = true }, ground (arith, s j), b)
        | inr other ↦ (d, ground (arith, s j), b)
      ]

  finish-slot_flying :
      (j : ℕ) (d : Slot) → m.slots j ≡ some d → d.is_done ≡ false → (w : ℕ) × (m.flying w ≡ some j)
  finish-slot_flying j d q h =
      let old : l.slots j ≡ some d = ground (arith, s j) in
      let (w, a) = v.slot_flying j d old h in (w, ground (arith, f w, s j))

  finish-slot_handle :
      (j : ℕ) (d : Slot)
      → m.slots j ≡ some d
      → d.is_dropped ≡ false
      → (k : ℕ) × (m.handles k ≡ some j)
  finish-slot_handle j d q h = elim (eq_cases i j) [
    | inl same ↦
        let (k, a) = v.slot_handle i e slot (ground (arith, s j)) in (k, ground (arith, g k))
    | inr other ↦ let (k, a) = v.slot_handle j d (ground (arith, s j)) h in (k, ground (arith, g k))
  ]

  finish-Inv : Inv m
  finish-Inv = record {
    flying_slot = finish-flying_slot;
    flying_unique = λ w x j p q. ground (arith, f w, f x, v.flying_unique w x j);
    handle_slot = finish-handle_slot;
    handle_unique = λ k x j p q. ground (arith, g k, g x, v.handle_unique k x j);
    slot_flying = finish-slot_flying;
    slot_handle = finish-slot_handle;
    slot_needed = λ j d q h. ground (arith, s j, v.slot_needed j d);
  }

module _ (l m : Lane) (h i : ℕ) (e : Slot) (handle : l.handles h ≡ some i)
    (slot : l.slots i ≡ some e) (f : Same l.flying m.flying)
    (g : Updates l.handles h none m.handles) (v : Inv l) where
  -- the handles that stay are those of other slots
  others : (k j : ℕ) → m.handles k ≡ some j → (l.handles k ≡ some j) × (i ≢ j)
  others k j q = (ground (arith, g k), λ same. ground (arith, g k, v.handle_unique h k i))

  module _ (s : Updates l.slots i none m.slots) (done : e.is_done ≡ true) where
    take-Inv : Inv m
    take-Inv = record {
      flying_slot = λ w j q.
          let (d, a, b) = v.flying_slot w j (ground (arith, f w)) in (d, ground (arith, s j), b);
      flying_unique = λ w x j p q. ground (arith, f w, f x, v.flying_unique w x j);
      handle_slot = λ k j q.
          let (old, other) = others k j q in
          let (d, a, b) = v.handle_slot k j old in (d, ground (arith, s j), b);
      handle_unique = λ k x j p q. ground (arith, g k, g x, v.handle_unique k x j);
      slot_flying = λ j d q b.
          let (w, a) = v.slot_flying j d (ground (arith, s j)) b in (w, ground (arith, f w));
      slot_handle = λ j d q b.
          let (k, a) = v.slot_handle j d (ground (arith, s j)) b in (k, ground (arith, g k, s j));
      slot_needed = λ j d q b. ground (arith, s j, v.slot_needed j d);
    }

  module _ (s : Updates l.slots i (released e) m.slots) where
    release-flying_slot :
        (w j : ℕ) → m.flying w ≡ some j → (d : Slot) × (m.slots j ≡ some d) × (d.is_done ≡ false)
    release-flying_slot w j q =
        let (d, a, b) = v.flying_slot w j (ground (arith, f w)) in
        elim (eq_cases i j) [
          | inl same ↦ (record d { is_dropped = true }, ground (arith, s j), b)
          | inr other ↦ (d, ground (arith, s j), b)
        ]

    release-slot_flying :
        (j : ℕ) (d : Slot)
        → m.slots j ≡ some d
        → d.is_done ≡ false
        → (w : ℕ) × (m.flying w ≡ some j)
    release-slot_flying j d q b = elim (eq_cases i j) [
      | inl same ↦
          let (w, a) = v.slot_flying i e slot (ground (arith, s j)) in (w, ground (arith, f w))
      | inr other ↦
          let (w, a) = v.slot_flying j d (ground (arith, s j)) b in (w, ground (arith, f w))
    ]

    release-Inv : Inv m
    release-Inv = record {
      flying_slot = release-flying_slot;
      flying_unique = λ w x j p q. ground (arith, f w, f x, v.flying_unique w x j);
      handle_slot = λ k j q.
          let (old, other) = others k j q in
          let (d, a, b) = v.handle_slot k j old in (d, ground (arith, s j), b);
      handle_unique = λ k x j p q. ground (arith, g k, g x, v.handle_unique k x j);
      slot_flying = release-slot_flying;
      slot_handle = λ j d q b.
          let (k, a) = v.slot_handle j d (ground (arith, s j)) b in (k, ground (arith, g k, s j));
      slot_needed = λ j d q b. ground (arith, s j, v.slot_needed j d);
    }

pub Move-Inv : {l m : Lane} → Move l m → Inv l → Inv m
Move-Inv {l} {m} (stay f s g) v = stay-Inv l m f s g v
Move-Inv {l} {m} (submit u i h a b c f s g) v = submit-Inv l m u i h a b c f s g v
Move-Inv {l} {m} (finish u i e a b f s g) v = finish-Inv l m u i e a b f s g v
Move-Inv {l} {m} (take h i e a b d f s g) v = take-Inv l m h i e a b f g v s d
Move-Inv {l} {m} (release h i e a b f s g) v = release-Inv l m h i e a b f g v s

pub empty-Inv :
    (l : Lane)
    → ((u : ℕ) → l.flying u ≡ none)
    → ((i : ℕ) → l.slots i ≡ none)
    → ((h : ℕ) → l.handles h ≡ none)
    → Inv l
empty-Inv l f s g = record {
  flying_slot = λ u i q. absurd (cc (f u));
  flying_unique = λ u w i p q. absurd (cc (f u));
  handle_slot = λ h i q. absurd (cc (g h));
  handle_unique = λ h k i p q. absurd (cc (g h));
  slot_flying = λ i e q d. absurd (cc (s i));
  slot_handle = λ i e q d. absurd (cc (s i));
  slot_needed = λ i e q d. absurd (cc (s i));
}

-- With nothing in flight and no handle no slot is in use.
pub quiet_slots :
    (l : Lane)
    → Inv l
    → ((u : ℕ) → l.flying u ≡ none)
    → ((h : ℕ) → l.handles h ≡ none)
    → (i : ℕ) → l.slots i ≡ none
quiet_slots l v f g i = elim (Option-cases (l.slots i)) [
  | inl free ↦ free
  | inr (e, used) ↦ elim (Bool-cases e.is_done) [
    | inl done ↦
        let (h, p) = v.slot_handle i e used (v.slot_needed i e used done) in absurd (cc (g h))
    | inr waits ↦ let (u, p) = v.slot_flying i e used waits in absurd (cc (f u))
  ]
]
