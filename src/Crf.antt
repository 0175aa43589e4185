-- ===== src/Crf.antt =====
-- packages/git-artifacts/src/crf.ts: canonical JSON, its digest, and the canonical order of the files
-- of a manifest. A text is the sequence of its UTF-16 code units. The modules below prove.
pub mod Canonical
pub mod Documents
pub mod Files
use Prim.Native.Nat.{ℕ, zero, suc, ◌+◌, ◌-◌, ◌/◌, ◌%◌}
use mathlib.Core.List.{reverse}
use remote_agent_devbox.Common.{
  String, ◌<>◌, Bool, true, false, ◌&&◌, ◌||◌, List, [], ◌∷◌, ◌++◌, map, ltb, leb, ◌==◌, nat_eq,
  if◌then◌else◌, other, Result, ok, err, Error, lex_leb, sort,
}
use remote_agent_devbox.Names.{codes, decimal, is_sha256_digest}

abbrev pub Text : Type 0
Text = List ℕ

-- The UTF-16 code units of a sequence of code points.
unfoldable pub units : List ℕ → Text
units [] = []
units (c ∷ cs) =
    let rest = units cs in
    if ltb c 65536
    then c ∷ rest
    else (55296 + (c - 65536) / 1024) ∷ (56320 + (c - 65536) % 1024) ∷ rest

abbrev pub text : String → Text
text s = units (codes s)

-- The values that `canonicalJson` tells apart. `below_zero n` is −(n + 1); `unsafe` is a number that
-- is no safe integer; `instance_object` has a prototype of its own; `unsupported` has another
-- `typeof`. An object lists its entries in the order of `Object.entries`.
mutual
  pub data Json : Type 0 where
    null undefined : Json
    boolean : Bool → Json
    characters : Text → Json
    whole : ℕ → Json
    below_zero : ℕ → Json
    unsafe : Json
    array : Items → Json
    object : Entries → Json
    instance_object : Json
    unsupported : String → Json

  pub data Items : Type 0 where
    nil : Items
    item : Json → Items → Items

  pub data Entries : Type 0 where
    end : Entries
    entry : Text → Json → Entries → Entries

abbrev hex_digit : ℕ → ℕ
hex_digit n = if ltb n 10 then b'0' + n else b'a' + (n - 10)

-- \uXXXX
escaped : ℕ → Text
escaped c =
    b'\\'
    ∷ b'u'
    ∷ hex_digit (c / 4096)
    ∷ hex_digit (c / 256 % 16)
    ∷ hex_digit (c / 16 % 16)
    ∷ hex_digit (c % 16)
    ∷ []

abbrev leads : ℕ → Bool
leads c = leb 55296 c && leb c 56319

abbrev trails : ℕ → Bool
trails c = leb 56320 c && leb c 57343

-- One code unit that is not part of a surrogate pair.
quoted_unit : ℕ → Text
unfolding escaped
quoted_unit c =
    if c == b'"' || c == b'\\'
    then b'\\' ∷ c ∷ []
    else if c == 8
    then b'\\' ∷ b'b' ∷ []
    else if c == 9
    then b'\\' ∷ b't' ∷ []
    else if c == 10
    then b'\\' ∷ b'n' ∷ []
    else if c == 12
    then b'\\' ∷ b'f' ∷ []
    else if c == 13
    then b'\\' ∷ b'r' ∷ []
    else if ltb c 32 || leads c || trails c
    then escaped c
    else c ∷ []

-- What JSON.stringify puts between the quotes; a surrogate pair stays, a lone surrogate is escaped.
quoted : Text → Text
unfolding quoted_unit
quoted [] = []
quoted (c ∷ []) = quoted_unit c
quoted (c ∷ d ∷ rest) = elim (leads c && trails d) [
  | true ↦ c ∷ d ∷ quoted rest
  | false ↦ quoted_unit c ++ quoted (d ∷ rest)
]

-- JSON.stringify(text)
unfoldable pub stringify : Text → Text
unfolding quoted
stringify t = b'"' ∷ (quoted t ++ (b'"' ∷ []))

-- Number.MAX_SAFE_INTEGER
abbrev max_safe_integer : ℕ
max_safe_integer = 9007199254740991

-- texts.join(",")
abbrev joined : List Text → Text
joined [] = []
joined (t ∷ []) = t
joined (t ∷ u ∷ ts) = t ++ (b',' ∷ joined (u ∷ ts))

abbrev in_front {ℓ} : {A : Type ℓ} → Result A → Result (List A) → Result (List A)
in_front (err e) rest = err e
in_front (ok a) (err e) = err e
in_front (ok a) (ok rest) = ok (a ∷ rest)

abbrev enclosed : ℕ → ℕ → Result (List Text) → Result Text
enclosed open_ close (err e) = err e
enclosed open_ close (ok texts) = ok (open_ ∷ (joined texts ++ (close ∷ [])))

-- `${JSON.stringify(key)}:${canonicalJson(entry)}`
abbrev member_text : Text × Result Text → Result Text
member_text (key, err e) = err e
member_text (key, ok value) = ok (stringify key ++ (b':' ∷ value))

-- The first member that throws, else the texts of all.
unfoldable pub member_texts : List (Text × Result Text) → Result (List Text)
unfolding stringify
member_texts [] = ok []
member_texts (m ∷ ms) = in_front (member_text m) (member_texts ms)

-- compareText(left, right) <= 0, on the keys
abbrev pub key_before : Text × Result Text → Text × Result Text → Bool
key_before left right = lex_leb left.0 right.0

abbrev safe : ℕ → Text → Result Text
safe n t =
    if leb n max_safe_integer then ok t else err (other "canonical JSON accepts only safe integers")

unfoldable mutual
  unfolding member_texts stringify units lex_leb sort

  pub canonical_json : Json → Result Text
  canonical_json Json.null = ok (text "null")
  canonical_json Json.undefined = err (other "canonical JSON rejects undefined")
  canonical_json (Json.boolean true) = ok (text "true")
  canonical_json (Json.boolean false) = ok (text "false")
  canonical_json (Json.characters t) = ok (stringify t)
  canonical_json (Json.whole n) = safe n (text (decimal n))
  canonical_json (Json.below_zero n) = safe (suc n) (b'-' ∷ text (decimal (suc n)))
  canonical_json Json.unsafe = err (other "canonical JSON accepts only safe integers")
  canonical_json (Json.array items) = enclosed b'[' b']' (item_texts items)
  canonical_json (Json.object entries) =
      enclosed b'{' b'}' (member_texts (sort key_before (members entries)))
  canonical_json Json.instance_object = err (other "canonical JSON accepts only plain objects")
  canonical_json (Json.unsupported kind) = err (other ("canonical JSON rejects " <> kind))

  pub item_texts : Items → Result (List Text)
  item_texts Items.nil = ok []
  item_texts (Items.item v items) = in_front (canonical_json v) (item_texts items)

  -- The keys, each with what its value becomes.
  pub members : Entries → List (Text × Result Text)
  members Entries.end = []
  members (Entries.entry key v entries) = (key, canonical_json v) ∷ members entries

module _ (sha256 : Text → String) where
  abbrev digest_of : Result Text → Result String
  digest_of (err e) = err e
  digest_of (ok t) =
      let digest = "sha256:" <> sha256 t in
      if is_sha256_digest digest then ok digest else err (other "digest is not canonical SHA-256")

  -- `sha256` is the hexadecimal digest of the text in UTF-8.
  unfoldable pub digest_canonical : Json → Result String
  unfolding canonical_json
  digest_canonical value = digest_of (canonical_json value)
