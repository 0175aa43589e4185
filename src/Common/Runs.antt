-- ===== src/Common/Runs.antt =====
-- A `do` block whose steps go through: each rule takes one step off the front.
use mathlib.Core.Path.{◌≡◌, refl}
use mathlib.Core.Bool.{Bool, true}
use mathlib.Core.Option.{Option, some}
use remote_agent_devbox.Common.Errors.{Error}
use remote_agent_devbox.Common.Execution.{
  Result, ok, Exec, pure, lift, gets, modify, required, required_where, assert, transaction, ◌>>=◌,
}

-- From the state `s` the operation returns `a` and leaves the state `t`.
pub record Yields {S A : Type 0} (m : Exec S A) (s : S) (a : A) (t : S) : Type 0 where
  pub outcome : m s ≡ (ok a, t)

module _ {S B : Type 0} {s t : S} {b : B} where
  pub on_found_where :
      {A : Type 0} (p : A → Bool) (row : Option A) (e : Error) (k : A → Exec S B) {a : A}
      → row ≡ some a
      → p a ≡ true
      → Yields (k a) s b t
      → Yields (required_where p row e >>= k) s b t
  unfolding ◌>>=◌
  on_found_where p row e k found holds rest = record { outcome = rw (found, holds) rest.outcome }

  pub on_found :
      {A : Type 0} (row : Option A) (e : Error) (k : A → Exec S B) {a : A}
      → row ≡ some a
      → Yields (k a) s b t
      → Yields (required row e >>= k) s b t
  unfolding ◌>>=◌
  on_found row e k found rest = record { outcome = rw found rest.outcome }

  pub on_holds :
      (c : Bool) (e : Error) (k : Unit {0} → Exec S B)
      → c ≡ true
      → Yields (k tt) s b t
      → Yields (assert c e >>= k) s b t
  unfolding ◌>>=◌
  on_holds c e k holds rest = record { outcome = rw holds rest.outcome }

  pub on_read :
      {A : Type 0} (f : S → A) (k : A → Exec S B)
      → Yields (k (f s)) s b t
      → Yields (gets f >>= k) s b t
  unfolding ◌>>=◌
  on_read f k rest = record { outcome = rest.outcome }

  pub on_write :
      (f : S → S) (k : Unit {0} → Exec S B)
      → Yields (k tt) (f s) b t
      → Yields (modify f >>= k) s b t
  unfolding ◌>>=◌
  on_write f k rest = record { outcome = rest.outcome }

  -- A call whose outcome is known.
  pub on_call :
      {A : Type 0} (m : Exec S A) (k : A → Exec S B) {a : A} {u : S}
      → m s ≡ (ok a, u)
      → Yields (k a) u b t
      → Yields (m >>= k) s b t
  unfolding ◌>>=◌
  on_call m k known rest = record { outcome = rw known rest.outcome }

  pub on_returned :
      {A : Type 0} (r : Result A) (k : A → Exec S B) {a : A}
      → r ≡ ok a
      → Yields (k a) s b t
      → Yields (lift r >>= k) s b t
  unfolding ◌>>=◌
  on_returned r k known rest = record { outcome = rw known rest.outcome }

  pub Yields-committed : (m : Exec S B) → Yields m s b t → Yields (transaction m) s b t
  unfolding transaction
  Yields-committed m h = record { outcome = rw h.outcome refl }

pub Yields-pure : {S A : Type 0} (a : A) (s : S) → Yields (pure a) s a s
unfolding pure
Yields-pure a s = record { outcome = refl }
