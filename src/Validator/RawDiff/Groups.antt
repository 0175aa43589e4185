-- ===== src/Validator/RawDiff/Groups.antt =====
-- The groups of a header: each is read back from the text that holds it, whatever follows.
use mathlib.Core.Path.{subst}
use remote_agent_devbox.Common.{
  ℕ, ◌≡◌, refl, Bool, true, Option, some, [], ◌∷◌, ◌++◌, length, ltb, leb, arith, ==_refl, nat_eq,
}
use remote_agent_devbox.Schema.Artifact.{FileStatus}
use remote_agent_devbox.Names.{every, is_hex}
use remote_agent_devbox.Validator.RawDiff.{
  Bytes, Header, ◌>>=◌, is_digit, literal, digits, hex_run, hex, last_status, read_header, ascii,
}

module _ (p : ℕ → Bool) where
  pub every-append :
      (xs ys : Bytes) → every p xs ≡ true → every p ys ≡ true → every p (xs ++ ys) ≡ true
  unfolding every
  every-append [] ys h k = k
  every-append (x ∷ xs) ys h k = ground (arith, every-append xs ys)

pub digits-append :
    (ds rest : Bytes) → every is_digit ds ≡ true → digits (length ds) (ds ++ rest) ≡ some (ds, rest)
unfolding digits every
digits-append [] rest h = refl
digits-append (d ∷ ds) rest h = ground (arith, digits-append ds rest)

pub hex_run-append :
    (xs rest : Bytes) → every is_hex xs ≡ true → hex_run (xs ++ (b' ' ∷ rest)) ≡ (xs, b' ' ∷ rest)
unfolding hex_run every
hex_run-append [] rest h = refl
hex_run-append (x ∷ xs) rest h = ground (arith, hex_run-append xs rest)

pub ascii-eq : (cs : Bytes) → every (λ c. ltb c 128) cs ≡ true → ascii cs ≡ cs
unfolding every
ascii-eq [] h = refl
ascii-eq (c ∷ cs) h = ground (arith, ascii-eq cs)

pub hex-append :
    (xs rest : Bytes)
    → every is_hex xs ≡ true
    → leb 1 (length xs) ≡ true
    → hex (xs ++ (b' ' ∷ rest)) ≡ some (xs, b' ' ∷ rest)
unfolding hex
hex-append [] rest h nonempty = ground arith
hex-append (x ∷ xs) rest h nonempty = rw (hex_run-append (x ∷ xs) rest h) refl

abbrev pub letter : FileStatus → ℕ
letter FileStatus.added = b'A'
letter FileStatus.deleted = b'D'
letter FileStatus.modified = b'M'
letter FileStatus.type_changed = b'T'

-- The text of a header, as git prints it.
unfoldable pub header_text : Header → Bytes
header_text h =
    b':'
    ∷ (h.old_mode
        ++ (b' '
            ∷ (h.new_mode
                ++ (b' '
                    ∷ (h.old_blob ++ (b' ' ∷ (h.new_blob ++ (b' ' ∷ letter h.status ∷ []))))))))

-- Modes are of six digits, and blobs of at least one hexadecimal digit.
pub record IsHeader (h : Header) : Type 0 where
  pub old_mode_digits : every is_digit h.old_mode ≡ true
  pub old_mode_length : length h.old_mode ≡ 6
  pub new_mode_digits : every is_digit h.new_mode ≡ true
  pub new_mode_length : length h.new_mode ≡ 6
  pub old_blob_hex : every is_hex h.old_blob ≡ true
  pub old_blob_length : leb 1 (length h.old_blob) ≡ true
  pub new_blob_hex : every is_hex h.new_blob ≡ true
  pub new_blob_length : leb 1 (length h.new_blob) ≡ true

mode-append :
    (ds rest : Bytes)
    → every is_digit ds ≡ true
    → length ds ≡ 6
    → digits 6 (ds ++ rest) ≡ some (ds, rest)
mode-append ds rest h six =
    subst (λ n. digits n (ds ++ rest) ≡ some (ds, rest)) six (digits-append ds rest h)

literal-cons : (c : ℕ) (cs : Bytes) → literal c (c ∷ cs) ≡ some cs
unfolding literal
literal-cons c cs = rw (==_refl c) refl

status-letter : (status : FileStatus) → last_status (letter status ∷ []) ≡ some status
unfolding last_status nat_eq
status-letter FileStatus.added = refl
status-letter FileStatus.deleted = refl
status-letter FileStatus.modified = refl
status-letter FileStatus.type_changed = refl

on_some :
    {A B : Type 0} (o : Option A) (f : A → Option B) {a : A} {r : Option B}
    → o ≡ some a
    → f a ≡ r
    → (o >>= f) ≡ r
on_some o f e h = rw e h

pub read_header-text : (h : Header) → IsHeader h → read_header (header_text h) ≡ some h
unfolding read_header header_text
read_header-text h w = on_some _ _ (literal-cons b':' _) (
    on_some _ _ (mode-append h.old_mode _ w.old_mode_digits w.old_mode_length) (
      on_some _ _ (literal-cons b' ' _) (
        on_some _ _ (mode-append h.new_mode _ w.new_mode_digits w.new_mode_length) (
          on_some _ _ (literal-cons b' ' _) (
            on_some _ _ (hex-append h.old_blob _ w.old_blob_hex w.old_blob_length) (
              on_some _ _ (literal-cons b' ' _) (
                on_some _ _ (hex-append h.new_blob _ w.new_blob_hex w.new_blob_length) (
                  on_some _ _ (literal-cons b' ' _)
                    (on_some _ _ (status-letter h.status) refl)))))))))

module _ {p q : ℕ → Bool} (weaker : (c : ℕ) → p c ≡ true → q c ≡ true) where
  every-weaken : (xs : Bytes) → every p xs ≡ true → every q xs ≡ true
  unfolding every
  every-weaken [] h = refl
  every-weaken (x ∷ xs) h = ground (arith, every-weaken xs, weaker x)

module _ {p : ℕ → Bool} where
  every-spaced :
      (q : ℕ → Bool) (xs rest : Bytes)
      → ((c : ℕ) → p c ≡ true → q c ≡ true)
      → q b' ' ≡ true
      → every p xs ≡ true
      → every q rest ≡ true
      → every q (xs ++ (b' ' ∷ rest)) ≡ true
  unfolding every
  every-spaced q xs rest weaker space h k =
      every-append q xs _ (every-weaken weaker xs h) (rw space k)

abbrev is_ascii : ℕ → Bool
is_ascii c = ltb c 128

is_digit-ascii : (c : ℕ) → is_digit c ≡ true → is_ascii c ≡ true
is_digit-ascii c h = ground arith

is_hex-ascii : (c : ℕ) → is_hex c ≡ true → is_ascii c ≡ true
is_hex-ascii c h = ground arith

module _ (q : ℕ → Bool) (digit : (c : ℕ) → is_digit c ≡ true → q c ≡ true)
    (hex_digit : (c : ℕ) → is_hex c ≡ true → q c ≡ true)
    (letters : (status : FileStatus) → q (letter status) ≡ true) (space : q b' ' ≡ true)
    (colon : q b':' ≡ true) where
  pub every-header_text : (h : Header) → IsHeader h → every q (header_text h) ≡ true
  unfolding header_text every
  every-header_text h w = rw colon (
      every-spaced q h.old_mode _ digit space w.old_mode_digits (
        every-spaced q h.new_mode _ digit space w.new_mode_digits (
          every-spaced q h.old_blob _ hex_digit space w.old_blob_hex (
            every-spaced q h.new_blob _ hex_digit space w.new_blob_hex
              (rw (letters h.status) refl)))))

letter-ascii : (status : FileStatus) → is_ascii (letter status) ≡ true
letter-ascii FileStatus.added = refl
letter-ascii FileStatus.deleted = refl
letter-ascii FileStatus.modified = refl
letter-ascii FileStatus.type_changed = refl

pub ascii-header_text : (h : Header) → IsHeader h → ascii (header_text h) ≡ header_text h
ascii-header_text h w =
    ascii-eq _ (every-header_text is_ascii is_digit-ascii is_hex-ascii letter-ascii refl refl h w)
