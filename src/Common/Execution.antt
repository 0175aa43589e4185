-- ===== src/Common/Execution.antt =====
-- Operations over a state that may throw. What was written before a throw stays written, unless a
-- transaction rolls it back.
use mathlib.Core.Bool.{Bool, true, false}
use mathlib.Core.Option.{Option, none, some}
use remote_agent_devbox.Common.Equality.{if◌then◌else◌}
use remote_agent_devbox.Common.Errors.{Error}

pub data Result {ℓ} (A : Type ℓ) : Type ℓ where
  ok : A → Result A
  err : Error → Result A

abbrev pub Exec : Type 0 → Type 0 → Type 0
Exec S A = S → Result A × S

module _ {S A : Type 0} where
  unfoldable pub pure : A → Exec S A
  pure a s = (ok a, s)

  -- throw
  unfoldable pub raise : Error → Exec S A
  raise e s = (err e, s)

  unfoldable pub lift : Result A → Exec S A
  lift r s = (r, s)

  unfoldable pub gets : (S → A) → Exec S A
  gets f s = (ok (f s), s)

  -- `if (!record) throw e`
  unfoldable pub required : Option A → Error → Exec S A
  required none e s = (err e, s)
  required (some a) e s = (ok a, s)

  -- `if (!record || !holds(record)) throw e`
  unfoldable pub required_where : (A → Bool) → Option A → Error → Exec S A
  required_where holds none e s = (err e, s)
  required_where holds (some a) e s = if holds a then (ok a, s) else (err e, s)

  abbrev pub rollback : S → Result A × S → Result A × S
  rollback before (ok a, after) = (ok a, after)
  rollback before (err e, after) = (err e, before)

  -- `db.transaction(body)`: a throw undoes all that the body wrote.
  unfoldable pub transaction : Exec S A → Exec S A
  transaction body s = rollback s (body s)

  abbrev pub handled : (Error → Exec S A) → Result A × S → Result A × S
  handled f (ok a, s) = (ok a, s)
  handled f (err e, s) = f e s

  -- `try { m } catch (error) { f(error) }`
  unfoldable pub catch : Exec S A → (Error → Exec S A) → Exec S A
  catch m f s = handled f (m s)

module _ {S : Type 0} where
  -- `if (!holds) throw e`
  unfoldable pub assert : Bool → Error → Exec S (Unit {0})
  assert true e s = (ok tt, s)
  assert false e s = (err e, s)

  unfoldable pub modify : (S → S) → Exec S (Unit {0})
  modify f s = (ok tt, f s)

module _ {S A B : Type 0} where
  abbrev pub continue : (A → Exec S B) → Result A × S → Result B × S
  continue f (ok a, s) = f a s
  continue f (err e, s) = (err e, s)

  infixl 5 ◌>>=◌ ◌>>◌
  -- Opening this opens the actions above too.
  unfoldable pub ◌>>=◌ : Exec S A → (A → Exec S B) → Exec S B
  unfolding pure raise lift gets required required_where transaction catch assert modify
  ◌>>=◌ m f s = continue f (m s)

  abbrev pub ◌>>◌ : Exec S A → Exec S B → Exec S B
  m >> n = m >>= λ _. n
