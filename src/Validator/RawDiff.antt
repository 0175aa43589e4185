-- ===== src/Validator/RawDiff.antt =====
-- apps/validator/src/raw-diff.ts: what `git diff-tree --raw -z` printed, read as a list of files.
-- Bytes are numbers, and the texts of a header are lists of ASCII codes. The modules below prove.
pub mod Groups
pub mod Printed
pub mod Sound
use Prim.Native.Nat.{ℕ, zero, suc, ◌+◌, ◌%◌}
use remote_agent_devbox.Common.{
  String, ◌<>◌, Bool, true, false, ◌&&◌, Option, none, some, List, [], ◌∷◌, map, length, ltb, leb,
  ◌==◌, nat_eq, if◌then◌else◌, other, Result, ok, err,
}
use remote_agent_devbox.Schema.Artifact.{FileStatus}
use remote_agent_devbox.Names.{is_hex, decimal}

abbrev pub Bytes : Type 0
Bytes = List ℕ

pub record StructuralFile : Type 0 where
  pub path_base64 : String
  pub old_blob : Bytes
  pub new_blob : Bytes
  pub old_mode : Bytes
  pub new_mode : Bytes
  pub status : FileStatus

-- The groups that `rawHeaderPattern` captures.
pub record Header : Type 0 where
  pub old_mode : Bytes
  pub new_mode : Bytes
  pub old_blob : Bytes
  pub new_blob : Bytes
  pub status : FileStatus

infixl 5 ◌>>=◌
abbrev pub ◌>>=◌ : {A B : Type 0} → Option A → (A → Option B) → Option B
none >>= f = none
some a >>= f = f a

-- \d
abbrev pub is_digit : ℕ → Bool
is_digit c = leb b'0' c && leb c b'9'

-- One character that is given.
unfoldable pub literal : ℕ → Bytes → Option Bytes
literal c [] = none
literal c (d ∷ cs) = if c == d then some cs else none

-- \d{n}
unfoldable pub digits : ℕ → Bytes → Option (Bytes × Bytes)
digits zero cs = some ([], cs)
digits (suc n) [] = none
digits (suc n) (c ∷ cs) =
    let rest = digits n cs in
    if is_digit c then (rest >>= λ (ds, after). some (c ∷ ds, after)) else none

-- [0-9a-f]*, as far as it goes
unfoldable pub hex_run : Bytes → Bytes × Bytes
hex_run [] = ([], [])
hex_run (c ∷ cs) =
    let (run, after) = hex_run cs in if is_hex c then (c ∷ run, after) else ([], c ∷ cs)

abbrev pub nonempty : Bytes × Bytes → Option (Bytes × Bytes)
nonempty ([], after) = none
nonempty (c ∷ run, after) = some (c ∷ run, after)

-- [0-9a-f]+; no character that may follow is one of these.
unfoldable pub hex : Bytes → Option (Bytes × Bytes)
unfolding hex_run
hex cs = nonempty (hex_run cs)

-- [ADMT]$
unfoldable pub last_status : Bytes → Option FileStatus
last_status (c ∷ []) =
    if c == b'A'
    then some FileStatus.added
    else if c == b'D'
    then some FileStatus.deleted
    else if c == b'M'
    then some FileStatus.modified
    else if c == b'T'
    then some FileStatus.type_changed
    else none
last_status _ = none

-- rawHeaderPattern.exec(header)
unfoldable pub read_header : Bytes → Option Header
unfolding literal digits hex last_status
read_header cs = do
  cs ← literal b':' cs
  (old_mode, cs) ← digits 6 cs
  cs ← literal b' ' cs
  (new_mode, cs) ← digits 6 cs
  cs ← literal b' ' cs
  (old_blob, cs) ← hex cs
  cs ← literal b' ' cs
  (new_blob, cs) ← hex cs
  cs ← literal b' ' cs
  status ← last_status cs
  some record {
    old_mode = old_mode;
    new_mode = new_mode;
    old_blob = old_blob;
    new_blob = new_blob;
    status = status;
  }

-- `buffer.toString("ascii")` drops the high bit of each byte.
abbrev pub ascii : Bytes → Bytes
ascii = map (λ b. b % 128)

-- A byte in front of the first field; a field that no NUL ends is not pushed.
abbrev pub in_front : ℕ → List Bytes → List Bytes
in_front b [] = []
in_front b (field ∷ fields) = (b ∷ field) ∷ fields

-- The fields that a NUL ends.
unfoldable pub fields : Bytes → List Bytes
fields [] = []
fields (b ∷ raw) = let rest = fields raw in if b == 0 then [] ∷ rest else in_front b rest

-- raw[raw.length - 1] === 0
unfoldable pub null_terminated : Bytes → Bool
null_terminated [] = false
null_terminated (b ∷ []) = b == 0
null_terminated (b ∷ c ∷ raw) = null_terminated (c ∷ raw)

unfoldable pub split_null : Bytes → Result (List Bytes)
unfolding fields null_terminated
split_null [] = ok []
split_null (b ∷ raw) =
    if null_terminated (b ∷ raw)
    then ok (fields (b ∷ raw))
    else err (other "git raw diff is not NUL terminated")

abbrev pub ahead : StructuralFile → Result (List StructuralFile) → Result (List StructuralFile)
ahead file (ok files) = ok (file ∷ files)
ahead file (err e) = err e

module _ (base64 : Bytes → String) where
  abbrev pub structural_file : Header → Bytes → StructuralFile
  structural_file header path = record {
    path_base64 = base64 path;
    old_blob = header.old_blob;
    new_blob = header.new_blob;
    old_mode = header.old_mode;
    new_mode = header.new_mode;
    status = header.status;
  }

  -- One round of the loop, in front of the rounds that follow.
  unfoldable pub read_file :
      Option Header → Bytes → Result (List StructuralFile) → Result (List StructuralFile)
  read_file none path rest = err (other "git emitted an unsupported raw diff record")
  read_file (some header) [] rest = err (other "git emitted an empty path")
  read_file (some header) (b ∷ path) rest = ahead (structural_file header (b ∷ path)) rest

  -- The loop, with `count` files pushed so far. The number of fields is even.
  unfoldable pub read_files : ℕ → ℕ → List Bytes → Result (List StructuralFile)
  unfolding read_header read_file
  read_files max_files count [] = ok []
  read_files max_files count (header ∷ []) = err (other "git emitted a malformed raw diff")
  read_files max_files count (header ∷ path ∷ rest) =
      let following = read_files max_files (suc count) rest in
      if leb max_files count
      then err (other ("raw diff exceeds the " <> decimal max_files <> " file limit"))
      else read_file (read_header (ascii header)) path following

  abbrev pub of_fields : ℕ → Result (List Bytes) → Result (List StructuralFile)
  of_fields max_files (err e) = err e
  of_fields max_files (ok found) =
      if length found % 2 == 0
      then read_files max_files 0 found
      else err (other "git emitted a malformed raw diff")

  unfoldable pub parse_raw_diff : Bytes → ℕ → Result (List StructuralFile)
  unfolding split_null read_files
  parse_raw_diff raw max_files =
      if leb 1 max_files && leb max_files 9007199254740991
      then of_fields max_files (split_null raw)
      else err (other "maxFiles must be a positive integer")
