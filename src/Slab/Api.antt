-- ===== src/Slab/Api.antt =====
-- `slab::Slab`: storage with keys chosen by the slab.
use trale.Prelude.{
  ℕ, suc, ◌≡◌, Bool, Option, none, some, ◌==◌, if◌then◌else◌, Outcome, ret, Panic, ◌>>=◌, unwrap,
}

pub record SlabApi : Type 1 where
  pub Slab : Type 0 → Type 0
  pub new : {A : Type 0} → Slab A
  pub get : {A : Type 0} → Slab A → ℕ → Option A
  -- a write through `get_mut`
  pub put : {A : Type 0} → Slab A → ℕ → A → Slab A
  pub vacant_key : {A : Type 0} → Slab A → ℕ
  pub insert : {A : Type 0} → Slab A → A → ℕ × Slab A
  pub try_remove : {A : Type 0} → Slab A → ℕ → Option A × Slab A
  pub len : {A : Type 0} → Slab A → ℕ
  pub get-new : {A : Type 0} (j : ℕ) → get (new {A = A}) j ≡ none
  pub get-vacant : {A : Type 0} (s : Slab A) → get s (vacant_key s) ≡ none
  pub insert_key : {A : Type 0} (s : Slab A) (a : A) → (insert s a).0 ≡ vacant_key s
  pub get-insert :
      {A : Type 0} (s : Slab A) (a : A) (j : ℕ)
      → get (insert s a).1 j ≡ (if vacant_key s == j then some a else get s j)
  pub get-put :
      {A : Type 0} (s : Slab A) (i : ℕ) (b a : A) (j : ℕ)
      → get s i ≡ some b
      → get (put s i a) j ≡ (if i == j then some a else get s j)
  pub try_remove_value : {A : Type 0} (s : Slab A) (i : ℕ) → (try_remove s i).0 ≡ get s i
  pub get-try_remove :
      {A : Type 0} (s : Slab A) (i j : ℕ)
      → get (try_remove s i).1 j ≡ (if i == j then none else get s j)
  pub len-new : {A : Type 0} → len (new {A = A}) ≡ 0
  pub len-insert : {A : Type 0} (s : Slab A) (a : A) → len (insert s a).1 ≡ suc (len s)
  pub len-put : {A : Type 0} (s : Slab A) (i : ℕ) (a : A) → len (put s i a) ≡ len s
  pub len-try_remove :
      {A : Type 0} (s : Slab A) (i : ℕ) (b : A)
      → get s i ≡ some b
      → suc (len (try_remove s i).1) ≡ len s
  pub len-try_remove_none :
      {A : Type 0} (s : Slab A) (i : ℕ) → get s i ≡ none → len (try_remove s i).1 ≡ len s
  pub get_of_len : {A : Type 0} (s : Slab A) (j : ℕ) → len s ≡ 0 → get s j ≡ none
  pub len_of_get : {A : Type 0} (s : Slab A) → ((j : ℕ) → get s j ≡ none) → len s ≡ 0

-- The interface's names, at the slab in scope.
abbrev pub Slab : ⦃S : SlabApi⦄ → Type 0 → Type 0
Slab ⦃S⦄ = S.Slab

module _ ⦃S : SlabApi⦄ where
  -- `Slab::remove`, which panics on a vacant key.
  abbrev pub remove : {A : Type 0} → Slab A → ℕ → Outcome (A × Slab A)
  remove s i = do a ← unwrap Panic.vacant_key (S.try_remove s i).0; ret (a, (S.try_remove s i).1)

  abbrev pub is_empty : {A : Type 0} → Slab A → Bool
  is_empty s = S.len s == 0

  -- One slot changes, and no other.
  abbrev pub Changes : {A : Type 0} → Slab A → ℕ → Option A → Slab A → Type 0
  Changes s i o s' = (j : ℕ) → S.get s' j ≡ (if i == j then o else S.get s j)
