-- ===== src/Common/Table.antt =====
-- A database table as the list of its rows, and the statements that the repositories send.
use Prim.Native.Nat.{ℕ, suc}
use mathlib.Core.Bool.{Bool, true, false}
use mathlib.Core.Option
use mathlib.Core.Option.{Option, none, some, some-ne-none, some-injective}
use mathlib.Core.List.{List, [], ◌∷◌}
use mathlib.Core.Path.{◌≡◌, refl, sym, subst, ◌∙◌}
use mathlib.Core.Logic.{inl, inr}
use native.Mathlib.Omega.{arith}
use remote_agent_devbox.Common.Equality.{if◌then◌else◌, Bool-cases, Option-cases}

module _ {ℓ} {A : Type ℓ} where
  abbrev pub length : List A → ℕ
  length [] = 0
  length (x ∷ xs) = suc (length xs)

  -- SELECT … WHERE p LIMIT 1
  unfoldable pub find_row : (A → Bool) → List A → Option A
  find_row p [] = none
  find_row p (x ∷ xs) = if p x then some x else find_row p xs

  -- SELECT … WHERE p
  unfoldable pub select : (A → Bool) → List A → List A
  select p [] = []
  select p (x ∷ xs) = let rest = select p xs in if p x then x ∷ rest else rest

  -- UPDATE … SET f WHERE p
  unfoldable pub update : (A → Bool) → (A → A) → List A → List A
  update p f [] = []
  update p f (x ∷ xs) = (if p x then f x else x) ∷ update p f xs

  -- the first row of UPDATE … SET f WHERE p RETURNING
  unfoldable pub returning : (A → Bool) → (A → A) → List A → Option A
  unfolding find_row
  returning p f xs = Option.map f (find_row p xs)

  -- Every row satisfies a predicate.
  abbrev pub All {κ} : (A → Type κ) → List A → Type κ
  All P [] = Unit
  All P (x ∷ xs) = P x × All P xs

  -- Is there a row that satisfies p?
  unfoldable pub exists : (A → Bool) → List A → Bool
  unfolding find_row
  exists p xs = elim (find_row p xs) [ none ↦ false | some x ↦ true ]

  -- An update that does not change whether a row is looked for changes the row that is found.
  pub find_row-update :
      (q p : A → Bool) (f : A → A)
      → ((x : A) → q (f x) ≡ q x)
      → (xs : List A)
      → find_row q (update p f xs) ≡ Option.map (λ x. if p x then f x else x) (find_row q xs)
  unfolding find_row update
  find_row-update q p f h [] = refl
  find_row-update q p f h (x ∷ xs) = ground (arith, h x, find_row-update q p f h xs)

  -- The row that is found satisfies the predicate.
  pub find_row_holds : (q : A → Bool) (xs : List A) {x : A} → find_row q xs ≡ some x → q x ≡ true
  unfolding find_row
  find_row_holds q [] h = ground arith
  find_row_holds q (y ∷ xs) {x} h = ground (arith, find_row_holds q xs {x = x})

  conditionally {κ} :
      (P : A → Type κ) (b : Bool) (y x : A) → P x → (b ≡ true → P y) → P (if b then y else x)
  conditionally P true y x old new = new refl
  conditionally P false y x old new = old

  pub All-update {κ} :
      (P : A → Type κ) (p : A → Bool) (f : A → A)
      → ((x : A) → P x → p x ≡ true → P (f x))
      → (xs : List A) → All P xs
      → All P (update p f xs)
  unfolding update
  All-update P p f keep [] h = tt
  All-update P p f keep (x ∷ xs) h =
      (conditionally P (p x) (f x) x h.0 (keep x h.0), All-update P p f keep xs h.1)

  pub All_at_row {κ} :
      (P : A → Type κ) (q : A → Bool) (xs : List A) {x : A}
      → All P xs
      → find_row q xs ≡ some x
      → P x
  unfolding find_row
  All_at_row P q [] h e = absurd (some-ne-none _ (sym e))
  All_at_row P q (y ∷ xs) {x} h e = elim (Bool-cases (q y)) [
    | inl yes_q ↦ subst P (some-injective y x (rw yes_q at e)) h.0
    | inr no_q ↦ All_at_row P q xs h.1 (rw no_q at e)
  ]

  pub All-map {κ μ} :
      (P : A → Type κ) (Q : A → Type μ)
      → ((x : A) → P x → Q x)
      → (xs : List A) → All P xs
      → All Q xs
  All-map P Q f [] h = tt
  All-map P Q f (x ∷ xs) h = (f x h.0, All-map P Q f xs h.1)

  -- Where no row is selected, an update changes nothing.
  pub update-none :
      (p : A → Bool) (f : A → A) (xs : List A) → find_row p xs ≡ none → update p f xs ≡ xs
  unfolding find_row update
  update-none p f [] h = refl
  update-none p f (x ∷ xs) h = elim (Bool-cases (p x)) [
    | inl hit ↦ absurd (some-ne-none x (rw hit at h))
    | inr miss ↦ rw (miss, update-none p f xs (rw miss at h))
  ]

  pub returning-none :
      (p : A → Bool) (f : A → A) (xs : List A) → returning p f xs ≡ none → find_row p xs ≡ none
  unfolding returning
  returning-none p f xs h = ground arith

  pub returning-some :
      (p : A → Bool) (f : A → A) (xs : List A) {y : A}
      → returning p f xs ≡ some y
      → (x : A) × (find_row p xs ≡ some x) × (y ≡ f x)
  unfolding returning
  returning-some p f xs {y} h = elim (Option-cases (find_row p xs)) [
    | inl e ↦ absurd (some-ne-none y (sym h ∙ rw e))
    | inr (x, e) ↦ (x, e, some-injective y (f x) (sym h ∙ rw e))
  ]

  -- An update that takes every row out of its own selection leaves none selected.
  pub All-unselected :
      (p : A → Bool) (f : A → A)
      → ((x : A) → p x ≡ true → p (f x) ≡ false)
      → (xs : List A) → All (λ x. p x ≡ false) (update p f xs)
  unfolding update
  All-unselected p f off [] = tt
  All-unselected p f off (x ∷ xs) = elim (Bool-cases (p x)) [
    | inl hit ↦ (rw hit (off x hit), All-unselected p f off xs)
    | inr miss ↦ (rw miss miss, All-unselected p f off xs)
  ]

  pub exists_false-All :
      (p : A → Bool) (xs : List A) → exists p xs ≡ false → All (λ x. p x ≡ false) xs
  unfolding exists find_row
  exists_false-All p [] h = tt
  exists_false-All p (x ∷ xs) h = elim (Bool-cases (p x)) [
    | inl hit ↦ absurd (ground arith)
    | inr miss ↦ (miss, exists_false-All p xs (rw (miss, exists) at h))
  ]

  pub find_row-none :
      (p : A → Bool) (xs : List A) → All (λ x. p x ≡ false) xs → find_row p xs ≡ none
  unfolding find_row
  find_row-none p [] h = refl
  find_row-none p (x ∷ xs) h = rw (h.0) (find_row-none p xs h.1)

  pub exists_false-none : (p : A → Bool) (xs : List A) → exists p xs ≡ false → find_row p xs ≡ none
  exists_false-none p xs h = find_row-none p xs (exists_false-All p xs h)

  -- A new row that is not looked for does not hide the row that is.
  pub find_row-cons_miss :
      (p : A → Bool) (x : A) (xs : List A) → p x ≡ false → find_row p (x ∷ xs) ≡ find_row p xs
  unfolding find_row
  find_row-cons_miss p x xs h = rw h

  pub find_row-cons_hit :
      (p : A → Bool) (x : A) (xs : List A) → p x ≡ true → find_row p (x ∷ xs) ≡ some x
  unfolding find_row
  find_row-cons_hit p x xs h = rw h
