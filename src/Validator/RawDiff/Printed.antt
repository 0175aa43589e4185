-- ===== src/Validator/RawDiff/Printed.antt =====
-- What git prints is read back.
use Prim.Native.Nat.{suc, ◌+◌, ◌%◌}
use remote_agent_devbox.Common.{
  ℕ, ◌≤◌, ◌≡◌, refl, ap, ◌∙◌, String, Bool, true, false, not, ◌&&◌, some, List, [], ◌∷◌, ◌++◌, map,
  length, leb, ◌==◌, nat_eq, ==_refl, All, ok, arith,
}
use remote_agent_devbox.Schema.Artifact.{FileStatus}
use remote_agent_devbox.Names.{every}
use remote_agent_devbox.Validator.RawDiff.{
  Bytes, Header, StructuralFile, fields, null_terminated, split_null, structural_file, read_file,
  read_files, parse_raw_diff,
}
use remote_agent_devbox.Validator.RawDiff.Groups.{
  letter, every-header_text, header_text, IsHeader, read_header-text, ascii-header_text,
}

abbrev not_null : ℕ → Bool
not_null b = not (b == 0)

-- One record of `git diff-tree --raw -z`: a header and a path, each ended by a NUL.
pub record Entry : Type 0 where
  pub header : Header
  pub path : Bytes

pub record IsEntry (e : Entry) : Type 0 where
  pub header_form : IsHeader e.header
  pub path_bytes : every not_null e.path ≡ true
  pub path_nonempty : leb 1 (length e.path) ≡ true

unfoldable pub printed : List Entry → Bytes
printed [] = []
printed (e ∷ es) = header_text e.header ++ (0 ∷ (e.path ++ (0 ∷ printed es)))

fields-append :
    (field rest : Bytes)
    → every not_null field ≡ true
    → fields (field ++ (0 ∷ rest)) ≡ field ∷ fields rest
unfolding fields every nat_eq
fields-append [] rest h = refl
fields-append (b ∷ field) rest h = ground (arith, fields-append field rest)

null_terminated-append :
    (xs ys : Bytes) → null_terminated ys ≡ true → null_terminated (xs ++ ys) ≡ true
unfolding null_terminated
null_terminated-append [] ys h = h
null_terminated-append (b ∷ []) [] h = ground arith
null_terminated-append (b ∷ []) (c ∷ ys) h = h
null_terminated-append (b ∷ c ∷ xs) ys h = null_terminated-append (c ∷ xs) ys h

-- The fields of what is printed: a header and a path in turn.
abbrev printed_fields : List Entry → List Bytes
printed_fields [] = []
printed_fields (e ∷ es) = header_text e.header ∷ e.path ∷ printed_fields es

not_null-letter : (status : FileStatus) → not_null (letter status) ≡ true
unfolding nat_eq
not_null-letter FileStatus.added = refl
not_null-letter FileStatus.deleted = refl
not_null-letter FileStatus.modified = refl
not_null-letter FileStatus.type_changed = refl

header_text-every : (h : Header) → IsHeader h → every not_null (header_text h) ≡ true
header_text-every h w =
    every-header_text not_null (λ c d. ground arith) (λ c d. ground arith) not_null-letter
      (ground arith) (ground arith) h w

fields-printed : (es : List Entry) → All IsEntry es → fields (printed es) ≡ printed_fields es
unfolding printed fields
fields-printed [] w = refl
fields-printed (e ∷ es) w =
    fields-append (header_text e.header) _ (header_text-every e.header w.0.header_form)
    ∙ ap (λ fs. header_text e.header ∷ fs)
        (fields-append e.path _ w.0.path_bytes ∙ ap (λ fs. e.path ∷ fs) (fields-printed es w.1))

length-printed_fields : (es : List Entry) → length (printed_fields es) % 2 ≡ 0
length-printed_fields [] = refl
length-printed_fields (e ∷ es) = let rest = length-printed_fields es in omega arith

null_terminated-null : (es : List Entry) → null_terminated (0 ∷ printed es) ≡ true
unfolding printed null_terminated nat_eq
null_terminated-null [] = refl
null_terminated-null (e ∷ es) =
    null_terminated-append (0 ∷ header_text e.header) _
      (null_terminated-append (0 ∷ e.path) _ (null_terminated-null es))

null_terminated-printed : (e : Entry) (es : List Entry) → null_terminated (printed (e ∷ es)) ≡ true
unfolding printed
null_terminated-printed e es =
    null_terminated-append (header_text e.header) _
      (null_terminated-append (0 ∷ e.path) _ (null_terminated-null es))

split_null-terminated :
    (raw : Bytes) → null_terminated raw ≡ true → split_null raw ≡ ok (fields raw)
unfolding split_null null_terminated
split_null-terminated [] h = ground arith
split_null-terminated (b ∷ raw) h = rw h

split_null-printed :
    (es : List Entry) → All IsEntry es → split_null (printed es) ≡ ok (printed_fields es)
unfolding split_null printed
split_null-printed [] w = refl
split_null-printed (e ∷ es) w =
    split_null-terminated _ (null_terminated-printed e es) ∙ ap ok (fields-printed (e ∷ es) w)

module _ (base64 : Bytes → String) where
  abbrev pub files_of : List Entry → List StructuralFile
  files_of = map (λ e. structural_file base64 e.header e.path)

  read_file-path :
      (h : Header) (path : Bytes) (files : List StructuralFile)
      → leb 1 (length path) ≡ true
      → read_file base64 (some h) path (ok files) ≡ ok (structural_file base64 h path ∷ files)
  unfolding read_file
  read_file-path h [] files nonempty = ground arith
  read_file-path h (b ∷ path) files nonempty = refl

  read_files-printed :
      (max_files count : ℕ) (es : List Entry)
      → All IsEntry es
      → count + length es ≤ max_files
      → read_files base64 max_files count (printed_fields es) ≡ ok (files_of es)
  unfolding read_files
  read_files-printed max_files count [] w fits = refl
  read_files-printed max_files count (e ∷ es) w fits =
      let below : leb max_files count ≡ false = ground arith in
      rw
        (
          below,
          ascii-header_text e.header w.0.header_form,
          read_header-text e.header w.0.header_form,
          read_files-printed max_files (suc count) es w.1 (omega arith),
        )
        (read_file-path e.header e.path _ w.0.path_nonempty)

  -- Where there are at most as many entries as the limit, which is positive and a safe integer,
  -- and each has modes of six digits, blobs of hexadecimal digits and a path that is not empty and
  -- holds no NUL, parsing what git prints of them returns the files of these entries, in order.
  pub parse_raw_diff-printed :
      (max_files : ℕ) (es : List Entry)
      → All IsEntry es
      → 1 ≤ max_files
      → max_files ≤ 9007199254740991
      → length es ≤ max_files
      → parse_raw_diff base64 (printed es) max_files ≡ ok (files_of es)
  unfolding parse_raw_diff
  parse_raw_diff-printed max_files es w positive safe fits =
      let bound : (leb 1 max_files && leb max_files 9007199254740991) ≡ true = ground arith in
      let even : (length (printed_fields es) % 2 == 0) ≡ true =
        rw (length-printed_fields es) (==_refl {A = ℕ} 0) in
      rw (bound, split_null-printed es w, even) (read_files-printed max_files 0 es w (omega arith))
