-- ===== src/Common/Outcome.antt =====
-- What holds of the outcome of an operation: a rule for each way to begin or to end a `do` block.
use mathlib.Core.Path.{◌≡◌, refl, subst}
use mathlib.Core.Bool.{Bool, true, false}
use mathlib.Core.Option.{Option, none, some}
use mathlib.Core.Logic.{inl, inr}
use mathlib.Core.List.{List}
use remote_agent_devbox.Common.Equality.{Bool-cases}
use remote_agent_devbox.Common.Table.{
  find_row, update, returning, update-none, returning-none, returning-some,
}
use remote_agent_devbox.Common.Errors.{Error}
use remote_agent_devbox.Common.Execution.{
  Result, ok, err, Exec, pure, raise, lift, gets, modify, required, required_where, assert,
  transaction, rollback, continue, catch, handled, ◌>>=◌,
}

-- From the state `s` the operation returns such that `Q` holds, or throws such that `E` holds.
module _ {S A : Type 0} (Q : A → S → Type 0) (E : Error → S → Type 0) where
  abbrev pub Outcome : Result A × S → Type 0
  Outcome (ok a, s) = Q a s
  Outcome (err e, s) = E e s

pub record Ensures {S A : Type 0} (Q : A → S → Type 0) (E : Error → S → Type 0) (m : Exec S A)
    (s : S) : Type 0 where
  pub holds : Outcome Q E (m s)

module _ {S A : Type 0} {Q : A → S → Type 0} {E : Error → S → Type 0} {s : S} where
  pub end_pure : (a : A) → Q a s → Ensures Q E (pure a) s
  unfolding pure
  end_pure a h = record { holds = h }

  pub end_raise : (e : Error) → E e s → Ensures Q E (raise e) s
  unfolding raise
  end_raise e h = record { holds = h }

  pub end_required :
      (row : Option A) (e : Error)
      → (row ≡ none → E e s)
      → ((a : A) → row ≡ some a → Q a s)
      → Ensures Q E (required row e) s
  unfolding required
  end_required none e bad good = record { holds = bad refl }
  end_required (some a) e bad good = record { holds = good a refl }

  pub end_required_where :
      (p : A → Bool) (row : Option A) (e : Error)
      → E e s
      → ((a : A) → row ≡ some a → p a ≡ true → Q a s)
      → Ensures Q E (required_where p row e) s
  unfolding required_where
  end_required_where p none e bad good = record { holds = bad }
  end_required_where p (some a) e bad good = elim (Bool-cases (p a)) [
    | inl accepted ↦ record { holds = rw accepted (good a refl accepted) }
    | inr refused ↦ record { holds = rw refused bad }
  ]

  pub end_lift :
      (r : Result A)
      → ((a : A) → r ≡ ok a → Q a s)
      → ((e : Error) → r ≡ err e → E e s)
      → Ensures Q E (lift r) s
  unfolding lift
  end_lift (ok a) good bad = record { holds = good a refl }
  end_lift (err e) good bad = record { holds = bad e refl }

  -- A transaction that throws leaves the state in which it began.
  pub end_transaction :
      (m : Exec S A) (E' : Error → S → Type 0)
      → ((e : Error) → E e s)
      → Ensures Q E' m s
      → Ensures Q E (transaction m) s
  unfolding transaction
  end_transaction m E' bad good = record { holds = rolled (m s) good.holds }
    where
      rolled : (o : Result A × S) → Outcome Q E' o → Outcome Q E (rollback s o)
      rolled (ok a, t) h = h
      rolled (err e, t) h = bad e

module _ {S A B : Type 0} {Q : B → S → Type 0} {E : Error → S → Type 0} {s : S} where
  pub on_gets :
      (f : S → A) (k : A → Exec S B) → Ensures Q E (k (f s)) s → Ensures Q E (gets f >>= k) s
  unfolding ◌>>=◌
  on_gets f k h = record { holds = h.holds }

  pub on_required :
      (row : Option A) (e : Error) (k : A → Exec S B)
      → (row ≡ none → E e s)
      → ((a : A) → row ≡ some a → Ensures Q E (k a) s)
      → Ensures Q E (required row e >>= k) s
  unfolding ◌>>=◌
  on_required none e k bad good = record { holds = bad refl }
  on_required (some a) e k bad good = record { holds = (good a refl).holds }

  pub on_required_where :
      (p : A → Bool) (row : Option A) (e : Error) (k : A → Exec S B)
      → E e s
      → ((a : A) → row ≡ some a → p a ≡ true → Ensures Q E (k a) s)
      → Ensures Q E (required_where p row e >>= k) s
  unfolding ◌>>=◌
  on_required_where p none e k bad good = record { holds = bad }
  on_required_where p (some a) e k bad good = elim (Bool-cases (p a)) [
    | inl accepted ↦ record { holds = rw accepted (good a refl accepted).holds }
    | inr refused ↦ record { holds = rw refused bad }
  ]

  pub on_lift :
      (r : Result A) (k : A → Exec S B)
      → ((e : Error) → r ≡ err e → E e s)
      → ((a : A) → r ≡ ok a → Ensures Q E (k a) s)
      → Ensures Q E (lift r >>= k) s
  unfolding ◌>>=◌
  on_lift (ok a) k bad good = record { holds = (good a refl).holds }
  on_lift (err e) k bad good = record { holds = bad e refl }

  -- The rest of the block may use what the first part ensures.
  pub on_ensured :
      (m : Exec S A) (k : A → Exec S B) (Q' : A → S → Type 0) (E' : Error → S → Type 0)
      → Ensures Q' E' m s
      → ((e : Error) (t : S) → E' e t → E e t)
      → ((a : A) (t : S) → Q' a t → Ensures Q E (k a) t)
      → Ensures Q E (m >>= k) s
  unfolding ◌>>=◌
  on_ensured m k Q' E' first bad good = record { holds = after (m s) first.holds }
    where
      after : (o : Result A × S) → Outcome Q' E' o → Outcome Q E (continue k o)
      after (ok a, t) h = (good a t h).holds
      after (err e, t) h = bad e t h

module _ {S B : Type 0} {Q : B → S → Type 0} {E : Error → S → Type 0} {s : S} where
  pub on_assert :
      (b : Bool) (e : Error) (k : Unit {0} → Exec S B)
      → (b ≡ false → E e s)
      → (b ≡ true → Ensures Q E (k tt) s)
      → Ensures Q E (assert b e >>= k) s
  unfolding ◌>>=◌
  on_assert true e k bad good = record { holds = (good refl).holds }
  on_assert false e k bad good = record { holds = bad refl }

  pub on_modify :
      (f : S → S) (k : Unit {0} → Exec S B)
      → Ensures Q E (k tt) (f s)
      → Ensures Q E (modify f >>= k) s
  unfolding ◌>>=◌
  on_modify f k h = record { holds = h.holds }

-- Compare and set: an UPDATE whose first returned row is required. Where no row is selected, nothing
-- is written.
module _ {S A : Type 0} (table : S → List A) (put : List A → S → S) where
  abbrev pub Swapped : (A → Bool) → (A → A) → S → A → S → Type 0
  Swapped p f s y s' =
      (x : A) × (find_row p (table s) ≡ some x) × (y ≡ f x) × (s' ≡ put (update p f (table s)) s)

module _ {S A : Type 0} (table : S → List A) (put : List A → S → S)
    (put_table : (s : S) → put (table s) s ≡ s) where
  pub end_swap :
      (p : A → Bool) (f : A → A) (e : Error) (s : S)
      → Ensures
          (Swapped table put p f s)
          (λ _ s'. s' ≡ s)
          (gets (λ t. returning p f (table t)) >>= λ updated.
            modify (λ t. put (update p f (table t)) t) >>= λ _. required updated e)
          s
  end_swap p f e s = on_gets _ _ (
      on_modify _ _ (
        end_required _ _
          (λ missed.
            rw (update-none p f (table s) (returning-none p f (table s) missed)) (put_table s))
          (λ y found. let (x, ex, ey) = returning-some p f (table s) found in (x, ex, ey, refl))))

-- A property of the state afterwards, from both outcomes.
module _ {S A : Type 0} {Q : A → S → Type 0} {E : Error → S → Type 0} where
  pub Ensures_after :
      (P : S → Type 0) (m : Exec S A) (s : S)
      → Ensures Q E m s
      → ((a : A) (t : S) → Q a t → P t)
      → ((e : Error) (t : S) → E e t → P t)
      → P (m s).1
  Ensures_after P m s h good bad = after (m s) h.holds
    where
      after : (o : Result A × S) → Outcome Q E o → P o.1
      after (ok a, t) q = good a t q
      after (err e, t) x = bad e t x

  -- What holds of a returned value, given that it is returned.
  pub Ensures_at_ok :
      (m : Exec S A) (s : S) {a : A} {t : S} → Ensures Q E m s → m s ≡ (ok a, t) → Q a t
  Ensures_at_ok m s {a} {t} h e = subst (Outcome Q E) e h.holds

  pub Ensures-weaken :
      {Q' : A → S → Type 0} {E' : Error → S → Type 0} (m : Exec S A) (s : S)
      → ((a : A) (t : S) → Q a t → Q' a t)
      → ((e : Error) (t : S) → E e t → E' e t)
      → Ensures Q E m s
      → Ensures Q' E' m s
  Ensures-weaken {Q'} {E'} m s good bad h = record { holds = weaken (m s) h.holds }
    where
      weaken : (o : Result A × S) → Outcome Q E o → Outcome Q' E' o
      weaken (ok a, t) q = good a t q
      weaken (err e, t) x = bad e t x

-- The rest of the block holds whatever the first part does.
pub on_any :
    {S A B : Type 0} {Q : B → S → Type 0} {E : Error → S → Type 0} {s : S} (m : Exec S A)
    (k : A → Exec S B)
    → ((e : Error) (t : S) → E e t)
    → ((a : A) (t : S) → Ensures Q E (k a) t)
    → Ensures Q E (m >>= k) s
unfolding ◌>>=◌
on_any {S} {A} {Q} {E} {s} m k bad good = record { holds = after (m s) }
  where
    after : (o : Result A × S) → Outcome Q E (continue k o)
    after (ok a, t) = (good a t).holds
    after (err e, t) = bad e t

pub end_catch :
    {S A : Type 0} {Q : A → S → Type 0} {E E' : Error → S → Type 0} {s : S} (m : Exec S A)
    (f : Error → Exec S A)
    → Ensures Q E' m s
    → ((e : Error) (t : S) → E' e t → Ensures Q E (f e) t)
    → Ensures Q E (catch m f) s
unfolding catch
end_catch {S} {A} {Q} {E} {E'} {s} m f first bad = record { holds = after (m s) first.holds }
  where
    after : (o : Result A × S) → Outcome Q E' o → Outcome Q E (handled f o)
    after (ok a, t) h = h
    after (err e, t) h = (bad e t h).holds

-- An operation that returns ensures what holds of the value that it returns.
pub Ensures_returned :
    {S A : Type 0} {Q : A → S → Type 0} {E : Error → S → Type 0} (m : Exec S A) (s : S) {a : A}
    {t : S}
    → m s ≡ (ok a, t)
    → Q a t
    → Ensures Q E m s
Ensures_returned {Q} {E} m s e h = record { holds = rw e h }

-- Two ways to go on agree where they agree after what the first part ensures.
pub same_after :
    {S A B : Type 0} {Q : A → S → Type 0} {E : Error → S → Type 0} (m : Exec S A)
    (k k' : A → Exec S B) (s : S)
    → Ensures Q E m s
    → ((a : A) (t : S) → Q a t → k a t ≡ k' a t)
    → (m >>= k) s ≡ (m >>= k') s
unfolding ◌>>=◌
same_after {S} {A} {B} {Q} {E} m k k' s first agree = after (m s) first.holds
  where
    after : (o : Result A × S) → Outcome Q E o → continue k o ≡ continue k' o
    after (ok a, t) h = agree a t h
    after (err e, t) h = refl

-- Of an operation of which nothing is known.
pub anything :
    {S A : Type 0} (m : Exec S A) (s : S) → Ensures (λ _ _. Unit {0}) (λ _ _. Unit {0}) m s
anything {S} {A} m s = record { holds = trivial (m s) }
  where
    trivial : (o : Result A × S) → Outcome (λ _ _. Unit {0}) (λ _ _. Unit {0}) o
    trivial (ok a, t) = tt
    trivial (err e, t) = tt

-- What an operation makes of the outcome of another.
pub end_by :
    {S T A B : Type 0} {Q : A → S → Type 0} {E : Error → S → Type 0} {Q' : B → T → Type 0}
    {E' : Error → T → Type 0} (g : Result A × S → Result B × T) (m : Exec S A) (s : S)
    (n : Exec T B) (t : T)
    → n t ≡ g (m s)
    → Ensures Q E m s
    → ((a : A) (s' : S) → Q a s' → Outcome Q' E' (g (ok a, s')))
    → ((e : Error) (s' : S) → E e s' → Outcome Q' E' (g (err e, s')))
    → Ensures Q' E' n t
end_by {S} {A = A} {Q} {E} {Q'} {E'} g m s n t same first good bad = record {
  holds = rw same (after (m s) first.holds);
}
  where
    after : (o : Result A × S) → Outcome Q E o → Outcome Q' E' (g o)
    after (ok a, s') h = good a s' h
    after (err e, s') h = bad e s' h
