-- ===== src/Slab/Vector.antt =====
-- A slab over a list of optional entries, which takes the first free key.
use trale.Prelude.{
  ℕ, zero, suc, ◌≡◌, refl, ap, Option, none, some, List, [], ◌∷◌, ◌==◌, if◌then◌else◌, arith,
}
use trale.Slab.Api.{SlabApi}

module _ {A : Type 0} where
  abbrev pub get : List (Option A) → ℕ → Option A
  get [] j = none
  get (x ∷ xs) zero = x
  get (x ∷ xs) (suc j) = get xs j

  abbrev pub put : List (Option A) → ℕ → A → List (Option A)
  put [] i a = []
  put (none ∷ xs) zero a = none ∷ xs
  put (some b ∷ xs) zero a = some a ∷ xs
  put (x ∷ xs) (suc i) a = x ∷ put xs i a

  abbrev pub vacant_key : List (Option A) → ℕ
  vacant_key [] = 0
  vacant_key (none ∷ xs) = 0
  vacant_key (some b ∷ xs) = suc (vacant_key xs)

  abbrev pub insert : List (Option A) → A → List (Option A)
  insert [] a = some a ∷ []
  insert (none ∷ xs) a = some a ∷ xs
  insert (some b ∷ xs) a = some b ∷ insert xs a

  abbrev pub erase : List (Option A) → ℕ → List (Option A)
  erase [] i = []
  erase (x ∷ xs) zero = none ∷ xs
  erase (x ∷ xs) (suc i) = x ∷ erase xs i

  abbrev pub occupied : List (Option A) → ℕ
  occupied [] = 0
  occupied (none ∷ xs) = occupied xs
  occupied (some b ∷ xs) = suc (occupied xs)

  pub get-vacant : (s : List (Option A)) → get s (vacant_key s) ≡ none
  get-vacant [] = refl
  get-vacant (none ∷ xs) = refl
  get-vacant (some b ∷ xs) = get-vacant xs

  pub get-insert :
      (s : List (Option A)) (a : A) (j : ℕ)
      → get (insert s a) j ≡ (if vacant_key s == j then some a else get s j)
  get-insert [] a zero = refl
  get-insert [] a (suc j) = ground arith
  get-insert (none ∷ xs) a zero = refl
  get-insert (none ∷ xs) a (suc j) = ground arith
  get-insert (some b ∷ xs) a zero = ground arith
  get-insert (some b ∷ xs) a (suc j) = ground (arith, get-insert xs a j)

  pub get-put :
      (s : List (Option A)) (i : ℕ) (b a : A) (j : ℕ)
      → get s i ≡ some b
      → get (put s i a) j ≡ (if i == j then some a else get s j)
  get-put [] i b a j h = ground arith
  get-put (none ∷ xs) zero b a j h = ground arith
  get-put (some c ∷ xs) zero b a zero h = refl
  get-put (some c ∷ xs) zero b a (suc j) h = ground arith
  get-put (none ∷ xs) (suc i) b a zero h = ground arith
  get-put (none ∷ xs) (suc i) b a (suc j) h = ground (arith, get-put xs i b a j h)
  get-put (some c ∷ xs) (suc i) b a zero h = ground arith
  get-put (some c ∷ xs) (suc i) b a (suc j) h = ground (arith, get-put xs i b a j h)

  pub get-erase :
      (s : List (Option A)) (i j : ℕ) → get (erase s i) j ≡ (if i == j then none else get s j)
  get-erase [] i j = ground arith
  get-erase (x ∷ xs) zero zero = refl
  get-erase (x ∷ xs) zero (suc j) = ground arith
  get-erase (x ∷ xs) (suc i) zero = ground arith
  get-erase (x ∷ xs) (suc i) (suc j) = ground (arith, get-erase xs i j)

  pub occupied-insert : (s : List (Option A)) (a : A) → occupied (insert s a) ≡ suc (occupied s)
  occupied-insert [] a = refl
  occupied-insert (none ∷ xs) a = refl
  occupied-insert (some b ∷ xs) a = ap suc (occupied-insert xs a)

  pub occupied-put : (s : List (Option A)) (i : ℕ) (a : A) → occupied (put s i a) ≡ occupied s
  occupied-put [] i a = refl
  occupied-put (none ∷ xs) zero a = refl
  occupied-put (some b ∷ xs) zero a = refl
  occupied-put (none ∷ xs) (suc i) a = occupied-put xs i a
  occupied-put (some b ∷ xs) (suc i) a = ap suc (occupied-put xs i a)

  pub occupied-erase :
      (s : List (Option A)) (i : ℕ) (b : A)
      → get s i ≡ some b
      → suc (occupied (erase s i)) ≡ occupied s
  occupied-erase [] i b h = ground arith
  occupied-erase (none ∷ xs) zero b h = ground arith
  occupied-erase (some c ∷ xs) zero b h = refl
  occupied-erase (none ∷ xs) (suc i) b h = occupied-erase xs i b h
  occupied-erase (some c ∷ xs) (suc i) b h = ap suc (occupied-erase xs i b h)

  pub occupied-erase-none :
      (s : List (Option A)) (i : ℕ) → get s i ≡ none → occupied (erase s i) ≡ occupied s
  occupied-erase-none [] i h = refl
  occupied-erase-none (none ∷ xs) zero h = refl
  occupied-erase-none (some c ∷ xs) zero h = absurd (cc)
  occupied-erase-none (none ∷ xs) (suc i) h = occupied-erase-none xs i h
  occupied-erase-none (some c ∷ xs) (suc i) h = ap suc (occupied-erase-none xs i h)

  pub get_of_occupied : (s : List (Option A)) (j : ℕ) → occupied s ≡ 0 → get s j ≡ none
  get_of_occupied [] j h = refl
  get_of_occupied (none ∷ xs) zero h = refl
  get_of_occupied (none ∷ xs) (suc j) h = get_of_occupied xs j h
  get_of_occupied (some b ∷ xs) j h = absurd (omega arith)

  pub occupied_of_get : (s : List (Option A)) → ((j : ℕ) → get s j ≡ none) → occupied s ≡ 0
  occupied_of_get [] h = refl
  occupied_of_get (none ∷ xs) h = occupied_of_get xs (λ j. h (suc j))
  occupied_of_get (some b ∷ xs) h = absurd (cc (h 0))

instance abbrev pub vector_slab : SlabApi
vector_slab = record {
  Slab = λ A. List (Option A);
  new = [];
  get = get;
  put = put;
  vacant_key = vacant_key;
  insert = λ s a. (vacant_key s, insert s a);
  try_remove = λ s i. (get s i, erase s i);
  len = occupied;
  get-new = λ j. refl;
  get-vacant = get-vacant;
  insert_key = λ s a. refl;
  get-insert = get-insert;
  get-put = get-put;
  try_remove_value = λ s i. refl;
  get-try_remove = get-erase;
  len-new = refl;
  len-insert = occupied-insert;
  len-put = occupied-put;
  len-try_remove = occupied-erase;
  len-try_remove_none = occupied-erase-none;
  get_of_len = get_of_occupied;
  len_of_get = occupied_of_get;
}
