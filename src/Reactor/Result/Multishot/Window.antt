-- ===== src/Reactor/Result/Multishot/Window.antt =====
-- About `MultishotStore::push_result` of src/reactor/uring/result.rs: many results, and what the ring
-- buffer of their slot keeps.
use trale.Prelude.{
  ℕ, zero, suc, ◌+◌, ◌-◌, ◌≤◌, ◌≡◌, ◌≢◌, refl, sym, ap, ◌∙◌, inl, inr, some, List, [], ◌∷◌, ◌++◌,
  length, tail, drop, drop-drop, length-drop, length-append, ltb, if◌then◌else◌, Bool-cases,
  Outcome, ret, ◌>>=◌, arith, ℤ,
}
use mathlib.Core.List.{append_assoc, append-nil}
use trale.Slab.{SlabApi}
use trale.RingBuffer.{BufferApi, capacity}
use trale.Reactor.Result.Multishot.{MultishotResultState, MultishotStore, push_result}
use trale.Reactor.Result.Multishot.Slots.{push_result_lem}

-- The last 1024 values.
abbrev pub window : List ℤ → List ℤ
window xs = drop (length xs - capacity) xs

pub length-window : (xs : List ℤ) → length (window xs) ≤ capacity
length-window xs = omega (arith, length-drop (length xs - capacity) xs)

drop-append : (k : ℕ) (xs ys : List ℤ) → k ≤ length xs → drop k xs ++ ys ≡ drop k (xs ++ ys)
drop-append zero xs ys le = refl
drop-append (suc k) [] ys le = absurd (omega arith)
drop-append (suc k) (x ∷ xs) ys le = drop-append k xs ys (omega arith)

window-append : (xs ys : List ℤ) → window (window xs ++ ys) ≡ window (xs ++ ys)
window-append xs ys =
    let k = length xs - capacity in
    let joined : window xs ++ ys ≡ drop k (xs ++ ys) = drop-append k xs ys (omega arith) in
    let far : k + (length (drop k (xs ++ ys)) - capacity) ≡ length (xs ++ ys) - capacity =
      omega (arith, length-drop k (xs ++ ys), length-append xs ys) in
    ap window joined
    ∙ drop-drop k (length (drop k (xs ++ ys)) - capacity) (xs ++ ys)
    ∙ ap (λ i. drop i (xs ++ ys)) far

window_short : (xs : List ℤ) → length xs ≤ capacity → window xs ≡ xs
window_short xs le =
    let none_over : length xs - capacity ≡ 0 = omega arith in ap (λ i. drop i xs) none_over

full_window :
    (xs : List ℤ) (v : ℤ) → length xs ≡ capacity → tail xs ++ v ∷ [] ≡ window (xs ++ v ∷ [])
full_window [] v e = absurd (omega arith)
full_window (x ∷ xs) v e =
    let one_over : 1 ≡ length (x ∷ (xs ++ v ∷ [])) - capacity =
      omega (arith, length-append xs (v ∷ [])) in
    ap (λ i. drop i (x ∷ (xs ++ v ∷ []))) one_over

enqueued :
    (xs : List ℤ) (v : ℤ)
    → length xs ≤ capacity
    → (if ltb (length xs) capacity then xs ++ v ∷ [] else tail xs ++ v ∷ []) ≡ window (xs ++ v ∷ [])
enqueued xs v le = elim (Bool-cases (ltb (length xs) capacity)) [
  | inl room ↦
      let fits : length (xs ++ v ∷ []) ≤ capacity =
        let short : length xs + 1 ≤ capacity = ground arith in
        omega (arith, length-append xs (v ∷ [])) in
      rw room (sym (window_short (xs ++ v ∷ []) fits))
  | inr full ↦ let all : length xs ≡ capacity = ground arith in rw full (full_window xs v all)
]

module _ ⦃S : SlabApi⦄ ⦃B : BufferApi⦄ where
  -- A push keeps the last values of what it had and the new one.
  to_vec-push_window :
      (e : MultishotResultState) (v : ℤ)
      → length (B.to_vec e.results) ≤ capacity
      → B.to_vec (B.push e.results v) ≡ window (B.to_vec e.results ++ v ∷ [])
  to_vec-push_window e v le = B.to_vec-push e.results v ∙ enqueued (B.to_vec e.results) v le

  -- results that are pushed one after the other
  unfoldable pub push_all : MultishotStore → List ℤ → ℕ → Outcome MultishotStore
  push_all s [] idx = ret s
  push_all s (v ∷ vs) idx = do t ← push_result s v idx; push_all t vs idx

  -- Results that are pushed one after the other into a slot that holds at most 1024 values leave
  -- in it the last 1024 of its values and theirs, oldest first, or all of them if they are fewer;
  -- no push fails, and the other slots are unchanged.
  pub push_all-window :
      (s : MultishotStore) (vs : List ℤ) (idx : ℕ) (e : MultishotResultState)
      → S.get s idx ≡ some e
      → length (B.to_vec e.results) ≤ capacity
      → (t : MultishotStore) × (e' : MultishotResultState) × (push_all s vs idx ≡ ret t)
        × (S.get t idx ≡ some e')
        × (B.to_vec e'.results ≡ window (B.to_vec e.results ++ vs))
        × (length (B.to_vec e'.results) ≤ capacity)
        × ((j : ℕ) → idx ≢ j → S.get t j ≡ S.get s j)
  unfolding push_all
  push_all-window s [] idx e slot le = (
    s,
    e,
    refl,
    slot,
    sym (ap window (append-nil (B.to_vec e.results)) ∙ window_short (B.to_vec e.results) le),
    le,
    λ j apart. refl,
  )
  push_all-window s (v ∷ vs) idx e slot le =
      let (u, eq, ch) = push_result_lem s v idx e slot in
      let pushed : MultishotResultState = record e { results = B.push e.results v } in
      let here : S.get u idx ≡ some pushed = ground (arith, ch idx) in
      let now = to_vec-push_window e v le in
      let (t, e', ran, last, values, le', others) =
        push_all-window u vs idx pushed here
          (omega (arith, ap length now, length-window (B.to_vec e.results ++ v ∷ []))) in
      (
        t,
        e',
        rw eq ran,
        last,
        values
            ∙ ap (λ xs. window (xs ++ vs)) now
            ∙ window-append (B.to_vec e.results ++ v ∷ []) vs
            ∙ ap window (append_assoc (B.to_vec e.results) (v ∷ []) vs),
        le',
        λ j apart. others j apart ∙ ground (arith, ch j),
      )
