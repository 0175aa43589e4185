-- ===== src/Validator/RawDiff/Sound.antt =====
-- What the parser returns: as many files as there are pairs of fields and no more than the limit,
-- each with modes of six digits and blobs of hexadecimal digits.
use Prim.Native.Nat.{zero, suc, ◌+◌, ◌*◌, ◌%◌}
use mathlib.Core.Path.{subst}
use remote_agent_devbox.Common.{
  ℕ, ◌≤◌, ◌≡◌, refl, ap, String, true, false, ◌&&◌, Option, none, some, ◌⊎◌, inl, inr, List, [],
  ◌∷◌, length, leb, ◌==◌, nat_eq, All, Result, ok, err, other, Bool-cases, arith,
}
use remote_agent_devbox.Names.{every, is_hex}
use remote_agent_devbox.Validator.RawDiff.{
  Bytes, Header, StructuralFile, ◌>>=◌, fields, split_null, structural_file, read_file, read_files,
  of_fields, null_terminated, parse_raw_diff, ascii, is_digit, digits, nonempty, hex, hex_run,
  literal, last_status, read_header,
}
use remote_agent_devbox.Validator.RawDiff.Groups.{IsHeader}

-- What holds of the value of an optional computation, where there is one.
abbrev At : {A : Type 0} → (A → Type 0) → Option A → Type 0
At P none = Unit
At P (some a) = P a

record Holds {A : Type 0} (P : A → Type 0) (o : Option A) : Type 0 where
  at : At P o

abbrev Returned : (List StructuralFile → Type 0) → Result (List StructuralFile) → Type 0
Returned P (ok files) = P files
Returned P (err e) = Unit

end_some : {A : Type 0} (P : A → Type 0) (a : A) → P a → Holds P (some a)
end_some P a h = record { at = h }

on_bound :
    {A B : Type 0} (P : A → Type 0) (Q : B → Type 0) (o : Option A) (f : A → Option B)
    → Holds P o
    → ((a : A) → P a → Holds Q (f a))
    → Holds Q (o >>= f)
on_bound P Q none f h k = record { at = tt }
on_bound P Q (some a) f h k = record { at = (k a h.at).at }

on_either :
    {A B : Type 0} (Q : B → Type 0) (o : Option A) (f : A → Option B)
    → ((a : A) → Holds Q (f a))
    → Holds Q (o >>= f)
on_either Q none f k = record { at = tt }
on_either Q (some a) f k = record { at = (k a).at }

abbrev AreDigits : ℕ → Bytes × Bytes → Type 0
AreDigits n g = (every is_digit g.0 ≡ true) × (length g.0 ≡ n)

digits-digits : (n : ℕ) (cs : Bytes) → Holds (AreDigits n) (digits n cs)
unfolding digits every
digits-digits zero cs = record { at = (refl, refl) }
digits-digits (suc n) [] = record { at = tt }
digits-digits (suc n) (c ∷ cs) = elim (Bool-cases (is_digit c)) [
  | inl hit ↦ rw hit (
      on_bound (AreDigits n) (AreDigits (suc n)) (digits n cs) _ (digits-digits n cs)
        λ a (ds, len). record { at = (rw hit ds, ap suc len) })
  | inr miss ↦ rw miss (record { at = tt })
]

hex_run-every : (cs : Bytes) → every is_hex (hex_run cs).0 ≡ true
unfolding hex_run every
hex_run-every [] = refl
hex_run-every (c ∷ cs) = elim (Bool-cases (is_hex c)) [
  | inl hit ↦ rw hit (rw hit (hex_run-every cs))
  | inr miss ↦ rw miss refl
]

abbrev AreHex : Bytes × Bytes → Type 0
AreHex g = (every is_hex g.0 ≡ true) × (leb 1 (length g.0) ≡ true)

hex-hex : (cs : Bytes) → Holds AreHex (hex cs)
unfolding hex
hex-hex cs = nonempty_hex (hex_run cs) (hex_run-every cs)
  where
    nonempty_hex : (g : Bytes × Bytes) → every is_hex g.0 ≡ true → Holds AreHex (nonempty g)
    nonempty_hex ([], after) h = record { at = tt }
    nonempty_hex (c ∷ run, after) h = record { at = (h, ground arith) }

read_header-IsHeader : (cs : Bytes) → Holds IsHeader (read_header cs)
unfolding read_header
read_header-IsHeader cs = on_either IsHeader (literal b':' cs) _ λ cs1.
    on_bound (AreDigits 6) IsHeader _ _ (digits-digits 6 cs1) λ a (ad, al).
      on_either IsHeader (literal b' ' a.1) _ λ cs2.
        on_bound (AreDigits 6) IsHeader _ _ (digits-digits 6 cs2) λ b (bd, bl).
          on_either IsHeader (literal b' ' b.1) _ λ cs3.
            on_bound AreHex IsHeader _ _ (hex-hex cs3) λ c (cd, cl).
              on_either IsHeader (literal b' ' c.1) _ λ cs4.
                on_bound AreHex IsHeader _ _ (hex-hex cs4) λ d (dd, dl).
                  on_either IsHeader (literal b' ' d.1) _ λ cs5.
                    on_either IsHeader (last_status cs5) _ λ status.
                      end_some IsHeader
                        (record {
                          old_mode = a.0;
                          new_mode = b.0;
                          old_blob = c.0;
                          new_blob = d.0;
                          status = status;
                        })
                        record {
                          old_mode_digits = ad;
                          old_mode_length = al;
                          new_mode_digits = bd;
                          new_mode_length = bl;
                          old_blob_hex = cd;
                          old_blob_length = cl;
                          new_blob_hex = dd;
                          new_blob_length = dl;
                        }

split_null-cases :
    (raw : Bytes)
    → (split_null raw ≡ ok (fields raw))
      ⊎ (split_null raw ≡ err (other "git raw diff is not NUL terminated"))
unfolding split_null fields
split_null-cases [] = inl refl
split_null-cases (b ∷ raw) = elim (Bool-cases (null_terminated (b ∷ raw))) [
  | inl ended ↦ inl (rw ended refl)
  | inr open_ ↦ inr (rw open_ refl)
]

module _ (base64 : Bytes → String) where
  -- The file stands for a header of git's form and a path that is not empty.
  abbrev pub Stands : StructuralFile → Type 0
  Stands file =
      (h : Header) × (path : Bytes) × IsHeader h
      × (1 ≤ length path)
      × (file ≡ structural_file base64 h path)

  abbrev Within : ℕ → List Bytes → List StructuralFile → Type 0
  Within room fs files = All Stands files × (length fs ≡ 2 * length files) × (length files ≤ room)

  read_file-Within :
      (room : ℕ) (header path : Bytes) (fs : List Bytes) (found : Option Header)
      (following : Result (List StructuralFile))
      → Holds IsHeader found
      → Returned (Within room fs) following
      → Returned (Within (suc room) (header ∷ path ∷ fs)) (read_file base64 found path following)
  unfolding read_file
  read_file-Within room header path fs none following h k = tt
  read_file-Within room header [] fs (some g) following h k = tt
  read_file-Within room header (b ∷ path) fs (some g) (err e) h k = tt
  read_file-Within room header (b ∷ path) fs (some g) (ok files) h (stand, count, fit) =
      (((g, b ∷ path, h.at, omega arith, refl), stand), omega arith, omega arith)

  read_files-Within :
      (max_files count room : ℕ) (fs : List Bytes)
      → max_files ≡ count + room
      → Returned (Within room fs) (read_files base64 max_files count fs)
  unfolding read_files
  read_files-Within max_files count room [] h = (tt, refl, omega arith)
  read_files-Within max_files count room (header ∷ []) h = tt
  read_files-Within max_files count zero (header ∷ path ∷ rest) h =
      let full : leb max_files count ≡ true = ground arith in rw full tt
  read_files-Within max_files count (suc room) (header ∷ path ∷ rest) h =
      let free : leb max_files count ≡ false = ground arith in
      rw free (
        read_file-Within room header path rest _ _ (read_header-IsHeader (ascii header))
          (read_files-Within max_files (suc count) room rest (omega arith)))

  of_fields-Within :
      (max_files : ℕ) (fs : List Bytes)
      → Returned (Within max_files fs) (of_fields base64 max_files (ok fs))
  unfolding read_files
  of_fields-Within max_files fs = elim (Bool-cases (length fs % 2 == 0)) [
    | inl even ↦ rw even (read_files-Within max_files 0 max_files fs (omega arith))
    | inr odd ↦ rw odd tt
  ]

  parse-Within :
      (raw : Bytes) (max_files : ℕ)
      → Returned (Within max_files (fields raw)) (parse_raw_diff base64 raw max_files)
  unfolding parse_raw_diff
  parse-Within raw max_files =
      elim (Bool-cases (leb 1 max_files && leb max_files 9007199254740991)) [
        | inr refused ↦ rw refused tt
        | inl accepted ↦ rw accepted (elim (split_null-cases raw) [
          | inl e ↦ rw e (of_fields-Within max_files (fields raw))
          | inr e ↦ rw e tt
        ])
      ]

  -- Where the parser of raw diffs returns, it returns no more files than the limit, one for each
  -- two fields of its input, and each file has modes of six digits, blobs of hexadecimal digits
  -- and the base64 text of a path that is not empty.
  pub parse_raw_diff-fields :
      (raw : Bytes) (max_files : ℕ) (files : List StructuralFile)
      → parse_raw_diff base64 raw max_files ≡ ok files
      → (length files ≤ max_files) × (length (fields raw) ≡ 2 * length files) × All Stands files
  parse_raw_diff-fields raw max_files files h =
      let (stand, count, fit) =
        subst (Returned (Within max_files (fields raw))) h (parse-Within raw max_files) in
      (fit, count, stand)
