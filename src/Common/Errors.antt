-- ===== src/Common/Errors.antt =====
-- What the code throws, and the texts that it stores of it (packages/shared/src/errors.ts).
use Prim.Native.Nat.{ℕ, zero, suc}
use Prim.Native.String.{String}

pub data Error : Type 0 where
  -- `new RadError(code, message)`
  rad : String → String → Error
  -- any other `Error`: a schema that rejects its input, a database constraint, a failed command
  other : String → Error

-- `error.message`
abbrev pub message : Error → String
message (rad code text) = text
message (other text) = text

-- `error instanceof RadError ? error.code : otherwise`
abbrev pub code_or : String → Error → String
code_or otherwise (rad code text) = code
code_or otherwise (other text) = otherwise

-- `text.slice(0, n)`, on texts without surrogate pairs
unfoldable pub slice_to : ℕ → String → String
slice_to zero s = String.[]
slice_to (suc n) String.[] = String.[]
slice_to (suc n) (String.◌∷◌ c s) = String.◌∷◌ c (slice_to n s)
