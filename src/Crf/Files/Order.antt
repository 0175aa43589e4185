-- ===== src/Crf/Files/Order.antt =====
-- The canonical order of files: it depends on the files alone, and each path stands once.
use mathlib.Core.Path.{subst}
use remote_agent_devbox.Common.{
  ℕ, ◌≡◌, ◌≢◌, refl, ap, sym, ◌∙◌, ◌⊎◌, inl, inr, String, Bool, true, false, ◌&&◌, List, [], ◌∷◌,
  All, Result, ok, err, Bool-cases, ◌==◌, string_eq, eq_of_==, lex_leb, lex_leb-total,
  lex_leb_trans, lex_leb-antisym, sort, sort-Rearranged, sort_rearranges, sort-Apart, Rearranged,
  All-Rearranged, Apart, SameRank, arith,
}
use remote_agent_devbox.Schema.Artifact.{StructuralFile}
use remote_agent_devbox.Crf.{canonical_json}
use remote_agent_devbox.Crf.Documents.{file_json}
use remote_agent_devbox.Crf.Files.{
  file_text, all, repeats_path, accepts_file, path_before, file_before, canonicalize_files,
}

-- The text that files are compared by is their canonical JSON.
pub file_text-canonical : (f : StructuralFile) → canonical_json (file_json f) ≡ ok (file_text f)
unfolding file_text
file_text-canonical f = refl

abbrev pub OtherPath : StructuralFile → StructuralFile → Type 0
OtherPath f g = f.path_base64 ≢ g.path_base64

all-All : {A : Type 0} (p : A → Bool) (xs : List A) → all p xs ≡ true → All (λ x. p x ≡ true) xs
unfolding all
all-All p [] h = tt
all-All p (x ∷ xs) h = (ground arith, all-All p xs (ground arith))

all-Rearranged :
    {A : Type 0} (p : A → Bool) {xs ys : List A} → Rearranged xs ys → all p xs ≡ all p ys
unfolding all
all-Rearranged p Rearranged.nothing = refl
all-Rearranged p (Rearranged.behind x r) = ap (λ b. p x && b) (all-Rearranged p r)
all-Rearranged p (Rearranged.exchange x y xs) = ground arith
all-Rearranged p (Rearranged.then r t) = all-Rearranged p r ∙ all-Rearranged p t

module _ (decode : String → List ℕ) (encode : List ℕ → String) where
  file_before-total :
      (f g : StructuralFile)
      → (file_before decode encode f g ≡ true) ⊎ (file_before decode encode g f ≡ true)
  unfolding file_before
  file_before-total f g =
      let paths = lex_leb-total (decode f.path_base64) (decode g.path_base64) in
      let texts = lex_leb-total (file_text f) (file_text g) in ground arith

  file_before_trans :
      (f g h : StructuralFile)
      → file_before decode encode f g ≡ true
      → file_before decode encode g h ≡ true
      → file_before decode encode f h ≡ true
  unfolding file_before
  file_before_trans f g h a b =
      let fgh =
        lex_leb_trans (decode f.path_base64) (decode g.path_base64) (decode h.path_base64) in
      let hgf =
        lex_leb_trans (decode h.path_base64) (decode g.path_base64) (decode f.path_base64) in
      let hfg =
        lex_leb_trans (decode h.path_base64) (decode f.path_base64) (decode g.path_base64) in
      let ghf =
        lex_leb_trans (decode g.path_base64) (decode h.path_base64) (decode f.path_base64) in
      let texts = lex_leb_trans (file_text f) (file_text g) (file_text h) in ground arith

  file_before-path :
      (f g : StructuralFile)
      → file_before decode encode f g ≡ true
      → path_before decode encode f g ≡ true
  unfolding file_before
  file_before-path f g h = ground arith

  abbrev Accepted : StructuralFile → Type 0
  Accepted f = accepts_file decode encode f ≡ true

  accepts_file-encode :
      (f : StructuralFile) → Accepted f → encode (decode f.path_base64) ≡ f.path_base64
  unfolding accepts_file
  accepts_file-encode f h = eq_of_== _ _ (ground arith)

  same_bytes :
      (f g : StructuralFile)
      → Accepted f
      → Accepted g
      → decode f.path_base64 ≡ decode g.path_base64
      → f.path_base64 ≡ g.path_base64
  same_bytes f g hf hg e = sym (accepts_file-encode f hf) ∙ ap encode e ∙ accepts_file-encode g hg

  paths_differ :
      (f g : StructuralFile)
      → Accepted f
      → Accepted g
      → OtherPath f g
      → SameRank (file_before decode encode) f g
  paths_differ f g hf hg differ fg gf = absurd (
      differ (
        same_bytes f g hf hg
          (lex_leb-antisym _ _ (file_before-path f g fg) (file_before-path g f gf))))

  others_differ :
      (f : StructuralFile) (gs : List StructuralFile)
      → Accepted f
      → All Accepted gs
      → All (OtherPath f) gs
      → All (SameRank (file_before decode encode) f) gs
  others_differ f [] hf hs ds = tt
  others_differ f (g ∷ gs) hf hs ds =
      (paths_differ f g hf hs.0 ds.0, others_differ f gs hf hs.1 ds.1)

  ranks_differ :
      (fs : List StructuralFile)
      → All Accepted fs
      → Apart OtherPath fs
      → Apart (SameRank (file_before decode encode)) fs
  ranks_differ [] hs ds = tt
  ranks_differ (f ∷ fs) hs ds = (others_differ f fs hs.0 hs.1 ds.0, ranks_differ fs hs.1 ds.1)

  -- For files that each have another path, putting them in canonical order has the same outcome
  -- for every order in which they are given.
  pub canonicalize_files-Rearranged :
      (fs gs : List StructuralFile)
      → Rearranged fs gs
      → Apart OtherPath fs
      → canonicalize_files decode encode fs ≡ canonicalize_files decode encode gs
  unfolding canonicalize_files
  canonicalize_files-Rearranged fs gs r apart =
      let same = all-Rearranged (accepts_file decode encode) r in
      elim (Bool-cases (all (accepts_file decode encode) fs)) [
        | inr refused ↦ rw (← same, refused) refl
        | inl accepted ↦
            let ranks = ranks_differ fs (all-All _ fs accepted) apart in
            let sorted =
              sort-Rearranged (file_before decode encode) file_before-total file_before_trans r
                ranks in
            rw (← same, accepted, sorted) refl
      ]

  abbrev pub Ordered : StructuralFile → StructuralFile → Type 0
  Ordered f g = file_before decode encode f g ≡ true

  between :
      (f g h : StructuralFile)
      → Accepted f
      → Accepted g
      → OtherPath f g
      → Ordered f g
      → Ordered g h
      → OtherPath f h
  between f g h hf hg differ fg gh same = differ (
      same_bytes f g hf hg (
        lex_leb-antisym _ _ (file_before-path f g fg) (
          subst (λ p. lex_leb (decode g.path_base64) (decode p) ≡ true) (sym same)
            (file_before-path g h gh))))

  beyond :
      (f g : StructuralFile) (hs : List StructuralFile)
      → Accepted f
      → Accepted g
      → OtherPath f g
      → Ordered f g
      → All (Ordered g) hs
      → All (OtherPath f) hs
  beyond f g [] hf hg differ fg ghs = tt
  beyond f g (h ∷ hs) hf hg differ fg ghs =
      (between f g h hf hg differ fg ghs.0, beyond f g hs hf hg differ fg ghs.1)

  no_path_twice :
      (fs : List StructuralFile)
      → All Accepted fs
      → Apart Ordered fs
      → repeats_path fs ≡ false
      → Apart OtherPath fs
  unfolding repeats_path
  no_path_twice [] hs ord once = tt
  no_path_twice (f ∷ []) hs ord once = (tt, tt)
  no_path_twice (f ∷ g ∷ fs) hs ord once = elim (Bool-cases (f.path_base64 == g.path_base64)) [
    | inl twice ↦ absurd (ground arith)
    | inr differ ↦
        let other_path : OtherPath f g = λ e. ground arith in
        (
          (other_path, beyond f g fs hs.0 hs.1.0 other_path ord.0.0 ord.1.0),
          no_path_twice (g ∷ fs) hs.1 ord.1 (ground arith),
        )
  ]

  -- The files are those given, each path once, in order.
  pub record Canonical (fs gs : List StructuralFile) : Type 0 where
    pub elements : Rearranged fs gs
    pub paths : Apart OtherPath gs
    pub order : Apart Ordered gs

  abbrev Outcome : List StructuralFile → Result (List StructuralFile) → Type 0
  Outcome fs (ok gs) = Canonical fs gs
  Outcome fs (err e) = Unit

  outcome : (fs : List StructuralFile) → Outcome fs (canonicalize_files decode encode fs)
  unfolding canonicalize_files
  outcome fs = elim (Bool-cases (all (accepts_file decode encode) fs)) [
    | inr refused ↦ rw refused tt
    | inl accepted ↦ elim (Bool-cases (repeats_path (sort (file_before decode encode) fs))) [
      | inl twice ↦ rw (accepted, twice) tt
      | inr once ↦
          let moved = sort_rearranges (file_before decode encode) fs in
          let ordered =
            sort-Apart (file_before decode encode) file_before-total file_before_trans fs in
          let kept = All-Rearranged Accepted moved (all-All _ fs accepted) in
          rw (accepted, once)
            record { elements = moved; paths = no_path_twice _ kept ordered once; order = ordered }
    ]
  ]

  -- Where putting files in canonical order returns, it returns the files that were given, no path
  -- twice, each before those that the comparison puts behind it.
  pub canonicalize_files-Canonical :
      (fs gs : List StructuralFile) → canonicalize_files decode encode fs ≡ ok gs → Canonical fs gs
  canonicalize_files-Canonical fs gs h = subst (Outcome fs) h (outcome fs)
