-- ===== src/Common/Sorting.antt =====
-- `array.sort(compare)`: a stable sort, as the insertion of each element before those it does not
-- follow; and the comparison of sequences of numbers.
use Prim.Native.Nat.{ℕ}
use mathlib.Core.Path.{◌≡◌, refl, sym, ap, ◌∙◌}
use mathlib.Core.Bool.{Bool, true, false}
use mathlib.Core.Logic.{◌⊎◌, inl, inr}
use mathlib.Core.List.{List, [], ◌∷◌, map}
use native.Mathlib.Omega.{arith}
use remote_agent_devbox.Common.Equality.{if◌then◌else◌, ltb, Bool-cases}
use remote_agent_devbox.Common.Table.{All, All-map}

-- The first sequence is the second or comes before it: `Buffer.compare(a, b) <= 0`, and the order of
-- JavaScript's texts as sequences of UTF-16 code units.
unfoldable pub lex_leb : List ℕ → List ℕ → Bool
lex_leb [] ys = true
lex_leb (x ∷ xs) [] = false
lex_leb (x ∷ xs) (y ∷ ys) =
    let rest = lex_leb xs ys in if ltb x y then true else if ltb y x then false else rest

pub lex_leb-total : (xs ys : List ℕ) → (lex_leb xs ys ≡ true) ⊎ (lex_leb ys xs ≡ true)
unfolding lex_leb
lex_leb-total [] ys = inl refl
lex_leb-total (x ∷ xs) [] = inr refl
lex_leb-total (x ∷ xs) (y ∷ ys) = let rest = lex_leb-total xs ys in ground arith

pub lex_leb_trans :
    (xs ys zs : List ℕ) → lex_leb xs ys ≡ true → lex_leb ys zs ≡ true → lex_leb xs zs ≡ true
unfolding lex_leb
lex_leb_trans [] ys zs h k = refl
lex_leb_trans (x ∷ xs) [] zs h k = ground arith
lex_leb_trans (x ∷ xs) (y ∷ ys) [] h k = ground arith
lex_leb_trans (x ∷ xs) (y ∷ ys) (z ∷ zs) h k = ground (arith, lex_leb_trans xs ys zs)

pub lex_leb-antisym : (xs ys : List ℕ) → lex_leb xs ys ≡ true → lex_leb ys xs ≡ true → xs ≡ ys
unfolding lex_leb
lex_leb-antisym [] [] h k = refl
lex_leb-antisym [] (y ∷ ys) h k = ground arith
lex_leb-antisym (x ∷ xs) [] h k = ground arith
lex_leb-antisym (x ∷ xs) (y ∷ ys) h k = ground (arith, lex_leb-antisym xs ys)

-- The elements of one list in the order of another, by exchanges of neighbours.
pub data Rearranged {A : Type 0} : List A → List A → Type 0 where
  nothing : Rearranged [] []
  behind : (x : A) {xs ys : List A} → Rearranged xs ys → Rearranged (x ∷ xs) (x ∷ ys)
  exchange : (x y : A) (xs : List A) → Rearranged (x ∷ y ∷ xs) (y ∷ x ∷ xs)
  then : {xs ys zs : List A} → Rearranged xs ys → Rearranged ys zs → Rearranged xs zs

unchanged : {A : Type 0} (xs : List A) → Rearranged xs xs
unchanged [] = Rearranged.nothing
unchanged (x ∷ xs) = Rearranged.behind x (unchanged xs)

-- A relation holds between each element and those after it.
abbrev pub Apart : {A : Type 0} → (A → A → Type 0) → List A → Type 0
Apart R [] = Unit
Apart R (x ∷ xs) = All (R x) xs × Apart R xs

pub All-Rearranged :
    {A : Type 0} (P : A → Type 0) {xs ys : List A} → Rearranged xs ys → All P xs → All P ys
All-Rearranged P Rearranged.nothing h = h
All-Rearranged P (Rearranged.behind x r) h = (h.0, All-Rearranged P r h.1)
All-Rearranged P (Rearranged.exchange x y xs) (px, (py, h)) = (py, (px, h))
All-Rearranged P (Rearranged.then r t) h = All-Rearranged P t (All-Rearranged P r h)

pub Apart-Rearranged :
    {A : Type 0} (R : A → A → Type 0) {xs ys : List A}
    → ((x y : A) → R x y → R y x)
    → Rearranged xs ys
    → Apart R xs
    → Apart R ys
Apart-Rearranged R flip Rearranged.nothing h = h
Apart-Rearranged R flip (Rearranged.behind x r) h =
    (All-Rearranged (R x) r h.0, Apart-Rearranged R flip r h.1)
Apart-Rearranged R flip (Rearranged.exchange x y xs) ((xy, rx), (ry, h)) =
    ((flip x y xy, ry), (rx, h))
Apart-Rearranged R flip (Rearranged.then r t) h =
    Apart-Rearranged R flip t (Apart-Rearranged R flip r h)

pub Rearranged-map :
    {A B : Type 0} (f : A → B) {xs ys : List A}
    → Rearranged xs ys
    → Rearranged (map f xs) (map f ys)
Rearranged-map f Rearranged.nothing = Rearranged.nothing
Rearranged-map f (Rearranged.behind x r) = Rearranged.behind (f x) (Rearranged-map f r)
Rearranged-map f (Rearranged.exchange x y xs) = Rearranged.exchange (f x) (f y) (map f xs)
Rearranged-map f (Rearranged.then r t) = Rearranged.then (Rearranged-map f r) (Rearranged-map f t)

-- Elements that come before each other are the same.
abbrev pub SameRank : {A : Type 0} → (A → A → Bool) → A → A → Type 0
SameRank before x y = before x y ≡ true → before y x ≡ true → x ≡ y

module _ {A : Type 0} (before : A → A → Bool) where
  unfoldable pub insert : A → List A → List A
  insert x [] = x ∷ []
  insert x (y ∷ ys) = let rest = insert x ys in if before x y then x ∷ y ∷ ys else y ∷ rest

  unfoldable pub sort : List A → List A
  unfolding insert
  sort [] = []
  sort (x ∷ xs) = insert x (sort xs)

  module _ (total : (x y : A) → (before x y ≡ true) ⊎ (before y x ≡ true))
      (transitive : (x y z : A) → before x y ≡ true → before y z ≡ true → before x z ≡ true) where
    insert-first :
        (x y : A) (zs : List A)
        → before x y ≡ true
        → before y x ≡ false
        → insert x (insert y zs) ≡ insert y (insert x zs)
    unfolding insert
    insert-first x y [] h k = rw h (rw k refl)
    insert-first x y (z ∷ zs) h k = ground (arith, insert-first x y zs, transitive x y z)

    after : (x y : A) → before x y ≡ false → before y x ≡ true
    after x y h = let either = total x y in ground arith

    insert-insert :
        (x y : A) (zs : List A)
        → (before x y ≡ true → before y x ≡ true → x ≡ y)
        → insert x (insert y zs) ≡ insert y (insert x zs)
    insert-insert x y zs antisym = elim (Bool-cases (before x y)) [
      | inr later ↦ sym (insert-first y x zs (after x y later) later)
      | inl first ↦ elim (Bool-cases (before y x)) [
        | inl both ↦ rw (antisym first both) refl
        | inr strict ↦ insert-first x y zs first strict
      ]
    ]

    -- Sorting forgets the order in which elements of different ranks came.
    pub sort-Rearranged :
        {xs ys : List A} → Rearranged xs ys → Apart (SameRank before) xs → sort xs ≡ sort ys
    unfolding sort
    sort-Rearranged Rearranged.nothing h = refl
    sort-Rearranged (Rearranged.behind x r) h = ap (insert x) (sort-Rearranged r h.1)
    sort-Rearranged (Rearranged.exchange x y xs) ((xy, _), _) = insert-insert x y (sort xs) xy
    sort-Rearranged (Rearranged.then r t) h =
        sort-Rearranged r h
        ∙ sort-Rearranged t (Apart-Rearranged (SameRank before) (λ x y e yx xy. sym (e xy yx)) r h)

    -- Sorting puts each element before those that it does not follow.
    insert-All_before :
        (P : A → Type 0) (x : A) (ys : List A) → P x → All P ys → All P (insert x ys)
    unfolding insert
    insert-All_before P x [] px h = (px, tt)
    insert-All_before P x (y ∷ ys) px h = elim (Bool-cases (before x y)) [
      | inl hit ↦ rw hit (px, h)
      | inr miss ↦ rw miss (h.0, insert-All_before P x ys px h.1)
    ]

    abbrev pub Precedes : A → A → Type 0
    Precedes x y = before x y ≡ true

    insert-Apart : (x : A) (ys : List A) → Apart Precedes ys → Apart Precedes (insert x ys)
    unfolding insert
    insert-Apart x [] h = (tt, tt)
    insert-Apart x (y ∷ ys) h = elim (Bool-cases (before x y)) [
      | inl hit ↦ rw hit ((hit, All-map _ _ (λ z. transitive x y z hit) ys h.0), h)
      | inr miss ↦
          rw miss (insert-All_before (Precedes y) x ys (after x y miss) h.0, insert-Apart x ys h.1)
    ]

    pub sort-Apart : (xs : List A) → Apart Precedes (sort xs)
    unfolding sort
    sort-Apart [] = tt
    sort-Apart (x ∷ xs) = insert-Apart x (sort xs) (sort-Apart xs)

  insert_rearranges : (x : A) (ys : List A) → Rearranged (x ∷ ys) (insert x ys)
  unfolding insert
  insert_rearranges x [] = Rearranged.behind x Rearranged.nothing
  insert_rearranges x (y ∷ ys) = elim (Bool-cases (before x y)) [
    | inl hit ↦ rw hit (unchanged (x ∷ y ∷ ys))
    | inr miss ↦ rw miss (
        Rearranged.then (Rearranged.exchange x y ys) (Rearranged.behind y (insert_rearranges x ys)))
  ]

  -- Sorting keeps the elements.
  pub sort_rearranges : (xs : List A) → Rearranged xs (sort xs)
  unfolding sort
  sort_rearranges [] = Rearranged.nothing
  sort_rearranges (x ∷ xs) =
      Rearranged.then (Rearranged.behind x (sort_rearranges xs)) (insert_rearranges x (sort xs))
