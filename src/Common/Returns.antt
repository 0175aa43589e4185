-- ===== src/Common/Returns.antt =====
-- Operations that end in a test, and operations that cannot throw.
use mathlib.Core.Path.{◌≡◌, refl}
use mathlib.Core.Bool.{Bool, true, false}
use remote_agent_devbox.Common.Errors.{Error}
use remote_agent_devbox.Common.Execution.{Result, ok, err, Exec, assert}
use remote_agent_devbox.Common.Outcome.{Outcome, Ensures}

pub end_assert :
    {S : Type 0} {Q : Unit {0} → S → Type 0} {E : Error → S → Type 0} {s : S} (b : Bool) (e : Error)
    → (b ≡ false → E e s)
    → (b ≡ true → Q tt s)
    → Ensures Q E (assert b e) s
unfolding assert
end_assert true e bad good = record { holds = good refl }
end_assert false e bad good = record { holds = bad refl }

-- What an operation returns is what it returns.
pub Ensures_itself :
    {S A : Type 0} (m : Exec S A) (s : S) → Ensures (λ a t. m s ≡ (ok a, t)) (λ _ _. Unit {0}) m s
Ensures_itself {S} {A} m s = record { holds = itself (m s) refl }
  where
    itself : (o : Result A × S) → m s ≡ o → Outcome (λ a t. m s ≡ (ok a, t)) (λ _ _. Unit {0}) o
    itself (ok a, t) e = e
    itself (err e, t) _ = tt

-- An operation that cannot throw returns.
pub Ensures_returns :
    {S A : Type 0} {Q : A → S → Type 0} (m : Exec S A) (s : S)
    → Ensures Q (λ _ _. ⊥) m s
    → (a : A) × (t : S) × (m s ≡ (ok a, t))
Ensures_returns {S} {A} {Q} m s h = returned (m s) h.holds
  where
    returned : (o : Result A × S) → Outcome Q (λ _ _. ⊥) o → (a : A) × (t : S) × (o ≡ (ok a, t))
    returned (ok a, t) q = (a, t, refl)
    returned (err e, t) impossible = absurd impossible
