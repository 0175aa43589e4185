-- ===== src/Crf/Canonical.antt =====
-- The canonical JSON of an object does not depend on the order of its entries.
use remote_agent_devbox.Common.{
  ◌≡◌, ◌≢◌, refl, ap, List, [], ◌∷◌, map, All, Result, lex_leb-total, lex_leb_trans,
  lex_leb-antisym, sort-Rearranged, Rearranged, Rearranged-map, Apart, SameRank,
}
use remote_agent_devbox.Crf.{Text, Json, Entries, canonical_json, members, key_before}

unfoldable pub entries_of : List (Text × Json) → Entries
entries_of [] = Entries.end
entries_of (m ∷ ms) = Entries.entry m.0 m.1 (entries_of ms)

abbrev member : Text × Json → Text × Result Text
member m = (m.0, canonical_json m.1)

members-eq : (ms : List (Text × Json)) → members (entries_of ms) ≡ map member ms
unfolding entries_of canonical_json
members-eq [] = refl
members-eq (m ∷ ms) = ap (λ rest. member m ∷ rest) (members-eq ms)

abbrev pub OtherKey : Text × Json → Text × Json → Type 0
OtherKey m n = m.0 ≢ n.0

keys-differ : (m n : Text × Json) → OtherKey m n → SameRank key_before (member m) (member n)
keys-differ m n differ mn nm = absurd (differ (lex_leb-antisym m.0 n.0 mn nm))

Apart-members :
    (ms : List (Text × Json)) → Apart OtherKey ms → Apart (SameRank key_before) (map member ms)
Apart-members [] h = tt
Apart-members (m ∷ ms) (h, rest) = (others ms h, Apart-members ms rest)
  where
    others :
        (ns : List (Text × Json))
        → All (OtherKey m) ns
        → All (SameRank key_before (member m)) (map member ns)
    others [] k = tt
    others (n ∷ ns) (k, ks) = (keys-differ m n k, others ns ks)

-- The canonical JSON of an object whose keys all differ is the same for every order of its
-- entries, errors included.
pub canonical_json-Rearranged :
    (ms ns : List (Text × Json))
    → Rearranged ms ns
    → Apart OtherKey ms
    → canonical_json (Json.object (entries_of ms)) ≡ canonical_json (Json.object (entries_of ns))
unfolding canonical_json
canonical_json-Rearranged ms ns r apart =
    rw
      (
        members-eq ms,
        members-eq ns,
        sort-Rearranged key_before (λ a b. lex_leb-total a.0 b.0)
            (λ a b c. lex_leb_trans a.0 b.0 c.0) (Rearranged-map member r) (Apart-members ms apart),
      )
      refl
