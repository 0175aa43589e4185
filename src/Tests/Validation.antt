-- ===== src/Tests/Validation.antt =====
-- The parser of raw diffs on concrete bytes.
use remote_agent_devbox.Common.{
  ◌≡◌, refl, ◌≤◌, String, List, [], ◌∷◌, ◌++◌, length, All, ok, err, other, nat_eq, arith,
}
use remote_agent_devbox.Names.{codes, every, decimal}
use remote_agent_devbox.Schema.Artifact.{FileStatus}
use remote_agent_devbox.Validator.RawDiff.{Bytes, Header, fields, structural_file, parse_raw_diff}
use remote_agent_devbox.Validator.RawDiff.Groups.{header_text, IsHeader}
use remote_agent_devbox.Validator.RawDiff.Printed.{
  Entry, IsEntry, printed, files_of, parse_raw_diff-printed,
}
use remote_agent_devbox.Validator.RawDiff.Sound.{Stands, parse_raw_diff-fields}

abbrev encoding : Bytes → String
encoding path = "Zm9v"

abbrev modified_header : Header
modified_header = record {
  old_mode = codes "100644";
  new_mode = codes "100755";
  old_blob = codes "0a";
  new_blob = codes "ff";
  status = FileStatus.modified;
}

abbrev entries : List Entry
entries = record { header = modified_header; path = codes "foo" } ∷ []

modified_header-IsHeader : IsHeader modified_header
unfolding every
modified_header-IsHeader = record {
  old_mode_digits = refl;
  old_mode_length = refl;
  new_mode_digits = refl;
  new_mode_length = refl;
  old_blob_hex = refl;
  old_blob_length = refl;
  new_blob_hex = refl;
  new_blob_length = refl;
}

entries-All : All IsEntry entries
unfolding nat_eq every
entries-All =
    (record { header_form = modified_header-IsHeader; path_bytes = refl; path_nonempty = refl }, tt)

parse_raw_diff-printed_example :
    parse_raw_diff encoding (printed entries) 1
    ≡ ok (structural_file encoding modified_header (codes "foo") ∷ [])
parse_raw_diff-printed_example =
    parse_raw_diff-printed encoding 1 entries entries-All (ground arith) (ground arith)
      (ground arith)

parse_raw_diff-fields_example :
    (1 ≤ 1)
    × (length (fields (printed entries)) ≡ 2)
    × All (Stands encoding) (files_of encoding entries)
parse_raw_diff-fields_example =
    parse_raw_diff-fields encoding (printed entries) 1 (files_of encoding entries)
      parse_raw_diff-printed_example

-- A second file is beyond the limit.
too_many :
    parse_raw_diff encoding (printed (entries ++ entries)) 1
    ≡ err (other "raw diff exceeds the 1 file limit")
unfolding parse_raw_diff printed header_text decimal nat_eq
too_many = refl
