-- ===== src/Crf/Files.antt =====
-- `canonicalizeFiles` of packages/git-artifacts/src/crf.ts. The modules below prove.
pub mod Order
use remote_agent_devbox.Common.{
  String, Bool, true, false, not, ◌&&◌, ◌||◌, List, [], ◌∷◌, ℕ, length, ltb, leb, ◌==◌, nat_eq,
  string_eq, if◌then◌else◌, other, Result, ok, err, lex_leb, sort,
}
use remote_agent_devbox.Names.{codes, every, is_object_id}
use remote_agent_devbox.Schema.Artifact.{StructuralFile}
use remote_agent_devbox.Crf.{Text, canonical_json}
use remote_agent_devbox.Crf.Documents.{file_json}

-- /^\d{6}$/
abbrev is_mode : String → Bool
is_mode s = every (λ c. leb b'0' c && leb c b'9') (codes s) && length (codes s) == 6

abbrev text_of : Result Text → Text
text_of (ok t) = t
text_of (err e) = []

-- `canonicalJson(file)`, which does not throw.
unfoldable pub file_text : StructuralFile → Text
unfolding canonical_json file_json
file_text f = text_of (canonical_json (file_json f))

unfoldable pub all : {A : Type 0} → (A → Bool) → List A → Bool
all p [] = true
all p (x ∷ xs) = p x && all p xs

-- parsed[index - 1].pathBase64 === parsed[index].pathBase64
unfoldable pub repeats_path : List StructuralFile → Bool
repeats_path [] = false
repeats_path (f ∷ []) = false
repeats_path (f ∷ g ∷ fs) = f.path_base64 == g.path_base64 || repeats_path (g ∷ fs)

-- `Buffer.from(text, "base64")` and `buffer.toString("base64")`.
module _ (decode : String → List ℕ) (encode : List ℕ → String) where
  -- structuralFileSchema
  unfoldable pub accepts_file : StructuralFile → Bool
  unfolding is_object_id every
  accepts_file f =
      not (f.path_base64 == "")
      && encode (decode f.path_base64) == f.path_base64
      && is_object_id f.old_blob
      && is_object_id f.new_blob
      && is_mode f.old_mode
      && is_mode f.new_mode

  abbrev pub path_before : StructuralFile → StructuralFile → Bool
  path_before left right = lex_leb (decode left.path_base64) (decode right.path_base64)

  -- The comparison of `parsed.sort` is at most 0.
  unfoldable pub file_before : StructuralFile → StructuralFile → Bool
  unfolding lex_leb file_text
  file_before left right =
      if path_before left right
      then (if path_before right left then lex_leb (file_text left) (file_text right) else true)
      else false

  unfoldable pub canonicalize_files : List StructuralFile → Result (List StructuralFile)
  unfolding accepts_file file_before sort repeats_path all
  canonicalize_files files =
      let sorted = sort file_before files in
      if all accepts_file files
      then (if repeats_path sorted
          then err (other "structural manifest contains a duplicate path")
          else ok sorted)
      else err (other "structural file is not valid")
