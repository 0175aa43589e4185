-- ===== src/Common/Rows.antt =====
-- Rows of a table that are found by a key, across updates and insertions, and how many rows a
-- condition selects.
use Prim.Native.Nat.{◌≤◌, ◌+◌}
use mathlib.Core.Path.{◌≡◌, refl, sym, ap, subst, ◌∙◌}
use mathlib.Core.Logic.{inl, inr}
use mathlib.Core.Bool.{Bool, true, false, ◌||◌}
use mathlib.Core.Option.{none, some, some-ne-none, some-injective}
use mathlib.Core.List.{List, [], ◌∷◌}
use native.Mathlib.Omega.{arith}
use remote_agent_devbox.Common.Equality.{if◌then◌else◌, Eq, ◌==◌, eq_of_==, Bool-cases}
use remote_agent_devbox.Common.Table.{
  length, find_row, select, update, exists, All, find_row-update, find_row-cons_miss,
  exists_false-none,
}

module _ {ℓ} {A : Type ℓ} where
  -- A row that an update does not select is found as it was.
  pub frozen-update :
      (q p : A → Bool) (f : A → A) (xs : List A) {x : A}
      → ((y : A) → q (f y) ≡ q y)
      → find_row q xs ≡ some x
      → p x ≡ false
      → find_row q (update p f xs) ≡ some x
  frozen-update q p f xs keep found off = rw (find_row-update q p f keep xs, found, off)

  -- A row that an update selects is found as it was written.
  pub changed-update :
      (q p : A → Bool) (f : A → A) (xs : List A) {x : A}
      → ((y : A) → q (f y) ≡ q y)
      → find_row q xs ≡ some x
      → p x ≡ true
      → find_row q (update p f xs) ≡ some (f x)
  changed-update q p f xs keep found on = rw (find_row-update q p f keep xs, found, on)

  -- Where an update cannot make a row satisfy a condition, no more rows satisfy it afterwards.
  pub select-update-le :
      (q p : A → Bool) (f : A → A)
      → ((x : A) → p x ≡ true → q (f x) ≡ true → q x ≡ true)
      → (xs : List A) → length (select q (update p f xs)) ≤ length (select q xs)
  unfolding select update
  select-update-le q p f shrink [] = omega arith
  select-update-le q p f shrink (x ∷ xs) =
      ground (arith, shrink x, select-update-le q p f shrink xs)

  pub none_exists : (p : A → Bool) (xs : List A) → find_row p xs ≡ none → exists p xs ≡ false
  unfolding exists
  none_exists p xs missing = rw (missing, exists) refl

  -- Where no row is looked for, an update that does not change what is looked for adds none.
  pub exists-update :
      (q p : A → Bool) (f : A → A) (xs : List A)
      → ((y : A) → q (f y) ≡ q y)
      → exists q xs ≡ false
      → exists q (update p f xs) ≡ false
  exists-update q p f xs keep h =
      none_exists q (update p f xs)
        (rw (find_row-update q p f keep xs, exists_false-none q xs h) refl)

  -- A row that an update writes is found by what the update makes true of it.
  pub written_row :
      (q p : A → Bool) (f : A → A) (xs : List A) {x : A}
      → ((y : A) → p y ≡ true → q (f y) ≡ true)
      → find_row p xs ≡ some x
      → (y : A) × (find_row q (update p f xs) ≡ some y)
  unfolding find_row update
  written_row q p f [] makes found = absurd (some-ne-none _ (sym found))
  written_row q p f (x ∷ xs) makes found = elim (Bool-cases (p x)) [
    | inl hit ↦ (f x, rw hit (rw (makes x hit) refl))
    | inr miss ↦
        let (y, e) = written_row q p f xs makes (rw miss at found) in
        elim (Bool-cases (q x)) [
          | inl other ↦ (x, rw miss (rw other refl))
          | inr none_here ↦ (y, rw miss (rw none_here e))
        ]
  ]

  pub All-select {κ} :
      (P : A → Type κ) (q : A → Bool) (xs : List A) → All P xs → All P (select q xs)
  unfolding select
  All-select P q [] h = tt
  All-select P q (x ∷ xs) h = elim (Bool-cases (q x)) [
    | inl hit ↦ rw hit (h.0, All-select P q xs h.1)
    | inr miss ↦ rw miss (All-select P q xs h.1)
  ]

  -- The rows that are selected satisfy the condition.
  pub All-selected : (q : A → Bool) (xs : List A) → All (λ x. q x ≡ true) (select q xs)
  unfolding select
  All-selected q [] = tt
  All-selected q (x ∷ xs) = elim (Bool-cases (q x)) [
    | inl hit ↦ rw hit (hit, All-selected q xs)
    | inr miss ↦ rw miss (All-selected q xs)
  ]

  pub select_none :
      (q : A → Bool) (xs : List A) → All (λ x. q x ≡ false) xs → length (select q xs) ≡ 0
  unfolding select
  select_none q [] h = refl
  select_none q (x ∷ xs) h = rw (h.0) (select_none q xs h.1)

  pub length-select-cons :
      (q : A → Bool) (x : A) (xs : List A) → length (select q (x ∷ xs)) ≤ 1 + length (select q xs)
  unfolding select
  length-select-cons q x xs = ground arith

  pub length-select-cons_miss :
      (q : A → Bool) (x : A) (xs : List A)
      → q x ≡ false
      → length (select q (x ∷ xs)) ≡ length (select q xs)
  unfolding select
  length-select-cons_miss q x xs h = rw h

module _ {ℓ κ} {A : Type ℓ} {K : Type κ} ⦃e : Eq K⦄ (key : A → K) where
  -- An insertion under another key does not hide a row.
  pub frozen-cons :
      (k : K) (y : A) (xs : List A) {x : A}
      → find_row (λ r. key r == k) xs ≡ some x
      → exists (λ r. key r == key y) xs ≡ false
      → find_row (λ r. key r == k) (y ∷ xs) ≡ some x
  frozen-cons k y xs {x} found fresh = elim (Bool-cases (key y == k)) [
    | inl hit ↦
        let absent : find_row (λ r. key r == k) xs ≡ none =
          subst (λ j. find_row (λ r. key r == j) xs ≡ none) (eq_of_== (key y) k hit)
            (exists_false-none _ xs fresh) in
        absurd (some-ne-none x (sym found ∙ absent))
    | inr miss ↦ find_row-cons_miss _ y xs miss ∙ found
  ]

module _ {ℓ} {A : Type ℓ} where
  exists-head : (q : A → Bool) (x : A) (xs : List A) → exists q (x ∷ xs) ≡ (q x || exists q xs)
  unfolding exists find_row
  exists-head q x xs = elim (Bool-cases (q x)) [
    | inl hit ↦ rw (hit, exists) refl
    | inr miss ↦ rw (miss, exists) refl
  ]

  pub exists-cons :
      (q : A → Bool) (x : A) (xs : List A) → exists q xs ≡ true → exists q (x ∷ xs) ≡ true
  exists-cons q x xs h = let head = exists-head q x xs in ground arith

  -- A row stays where an update does not select it.
  pub exists-update_unselected :
      (q p : A → Bool) (f : A → A) (xs : List A)
      → ((x : A) → q x ≡ true → p x ≡ false)
      → exists q xs ≡ true
      → exists q (update p f xs) ≡ true
  unfolding update
  exists-update_unselected q p f [] off h = h
  exists-update_unselected q p f (x ∷ xs) off h =
      let before = exists-head q x xs in
      let after = exists-head q (if p x then f x else x) (update p f xs) in
      ground (arith, off x, exists-update_unselected q p f xs off)

  pub exists_of_row :
      (q : A → Bool) (xs : List A) {x : A} → find_row q xs ≡ some x → exists q xs ≡ true
  unfolding exists
  exists_of_row q xs found = rw (found, exists) refl

  -- The first row of a wider condition, where it satisfies the narrower one too, is the first there.
  pub find_row_narrow :
      (q p : A → Bool) (xs : List A) {x : A}
      → ((y : A) → p y ≡ true → q y ≡ true)
      → find_row q xs ≡ some x
      → p x ≡ true
      → find_row p xs ≡ some x
  unfolding find_row
  find_row_narrow q p [] within found hit = found
  find_row_narrow q p (y ∷ xs) {x} within found hit = elim (Bool-cases (q y)) [
    | inl wide ↦
        let same : y ≡ x = some-injective y x (rw wide at found) in
        rw (subst (λ z. p z ≡ true) (sym same) hit) (ap some same)
    | inr narrow ↦
        let miss : p y ≡ false = ground (arith, within y, narrow) in
        rw miss (find_row_narrow q p xs within (rw narrow at found) hit)
  ]
