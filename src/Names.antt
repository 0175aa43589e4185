-- ===== src/Names.antt =====
-- The texts that the schemas accept: `gitRefNameSchema` of packages/shared/src/workspace.ts, the
-- digest schema of packages/git-artifacts/src/artifact.ts, and `objectIdPattern` of
-- packages/git-operations/src/repository.ts.
use Prim.Native.Char.{code}
use mathlib.Core.List.{reverse}
use Prim.Native.Nat.{zero, suc, ◌/◌, ◌%◌}
use remote_agent_devbox.Common.{
  ℕ, String, ◌<>◌, Bool, true, false, not, ◌&&◌, ◌||◌, List, [], ◌∷◌, length, ltb, leb, ◌==◌,
  nat_eq, if◌then◌else◌,
}

-- The code points of a text.
abbrev pub codes : String → List ℕ
codes String.[] = []
codes (String.◌∷◌ c s) = code c ∷ codes s

unfoldable pub every : (ℕ → Bool) → List ℕ → Bool
every p [] = true
every p (c ∷ s) = p c && every p s

-- [0-9a-f]
abbrev pub is_hex : ℕ → Bool
is_hex c = (leb b'0' c && leb c b'9') || (leb b'a' c && leb c b'f')

-- [A-Za-z0-9]
abbrev pub is_alphanumeric : ℕ → Bool
is_alphanumeric c =
    (leb b'a' c && leb c b'z') || (leb b'A' c && leb c b'Z') || (leb b'0' c && leb c b'9')

-- /^[0-9a-f]{40}(?:[0-9a-f]{24})?$/
unfoldable pub is_object_id : String → Bool
unfolding every
is_object_id s = let cs = codes s in every is_hex cs && (length cs == 40 || length cs == 64)

unfoldable pub after_prefix : List ℕ → List ℕ → List ℕ
after_prefix [] cs = cs
after_prefix (p ∷ ps) [] = []
after_prefix (p ∷ ps) (c ∷ cs) = let rest = after_prefix ps cs in if p == c then rest else []

-- /^sha256:[0-9a-f]{64}$/
unfoldable pub is_sha256_digest : String → Bool
unfolding every after_prefix
is_sha256_digest s =
    let digits = after_prefix (codes "sha256:") (codes s) in
    every is_hex digits && length digits == 64

-- /[A-Za-z0-9._/-]/
abbrev is_ref_character : ℕ → Bool
is_ref_character c = is_alphanumeric c || c == b'.' || c == b'_' || c == b'/' || c == b'-'

-- !value.includes("..") && !value.includes("//")
no_doubled : List ℕ → Bool
no_doubled [] = true
no_doubled (c ∷ []) = true
no_doubled (c ∷ d ∷ s) = not (c == d && (c == b'.' || c == b'/')) && no_doubled (d ∷ s)

unfoldable pub starts_with : List ℕ → List ℕ → Bool
starts_with [] cs = true
starts_with (p ∷ ps) [] = false
starts_with (p ∷ ps) (c ∷ cs) = p == c && starts_with ps cs

-- text.endsWith(suffix)
unfoldable pub ends_with : String → List ℕ → Bool
unfolding starts_with
ends_with suffix cs = starts_with (reverse (codes suffix)) (reverse cs)

-- /^[A-Za-z0-9]/
starts_alphanumeric : List ℕ → Bool
starts_alphanumeric [] = false
starts_alphanumeric (c ∷ s) = is_alphanumeric c

-- gitRefNameSchema
unfoldable pub is_git_ref_name : String → Bool
unfolding every no_doubled ends_with starts_alphanumeric
is_git_ref_name s =
    let cs = codes s in
    leb 1 (length cs)
    && leb (length cs) 255
    && starts_alphanumeric cs
    && every is_ref_character cs
    && no_doubled cs
    && not (ends_with "/" cs)
    && not (ends_with "." cs)
    && not (ends_with ".lock" cs)

digit : ℕ → String
digit n =
    if n == 0
    then "0"
    else if n == 1
    then "1"
    else if n == 2
    then "2"
    else if n == 3
    then "3"
    else if n == 4
    then "4"
    else if n == 5
    then "5"
    else if n == 6
    then "6"
    else if n == 7
    then "7"
    else if n == 8
    then "8"
    else "9"

-- The decimal digits of a number below 10 to the number of rounds, in front of a text.
decimal_before : ℕ → ℕ → String → String
decimal_before zero n rest = rest
decimal_before (suc rounds) n rest =
    let longer = decimal_before rounds (n / 10) (digit (n % 10) <> rest) in
    if ltb n 10 then digit n <> rest else longer

-- `${n}`
unfoldable pub decimal : ℕ → String
unfolding digit decimal_before
decimal n = decimal_before (suc n) n ""
