-- ===== src/Predictors/Scan.antt =====
-- pkg/predictor/fromnodeconfig: the scan of a model's URL for the name and the version of the model.
use waok8s.Prelude.{
  ◌≡◌, refl, ap, ◌∙◌, false, List, [], ◌∷◌, ◌++◌, Text, lit, text_eq, split, All, any, ◌==◌, ℕ,
  arith,
}
use waok8s.Client.Keys.{Lacks, Lacks-append, split_after-last, split_after-first}
use waok8s.Predictors.FromNodeConfig.{scan_segments}

-- Segments joined by slashes.
unfoldable pub joined : Text → List Text → Text
joined s [] = s
joined s (t ∷ ss) = s ++ b'/' ∷ joined t ss

split-joined :
    (s : Text) (ss : List Text) → All (Lacks b'/') (s ∷ ss) → split b'/' (joined s ss) ≡ s ∷ ss
unfolding split joined
split-joined s [] (h, u) = split_after-last b'/' [] s h
split-joined s (t ∷ ss) (h, u) =
    split_after-first b'/' [] s (joined t ss) h
    ∙ ap (λ (l : List Text). s ∷ l) (split-joined t ss u)

-- The URL of a server, and of the model of a name and a version on it.
abbrev pub base_url : Text → Text → Text
base_url scheme host = scheme ++ (lit "://" ++ host)

abbrev pub model_url : Text → Text → Text → List Text → Text
model_url scheme host name rest =
    joined (scheme ++ lit ":") ([] ∷ host ∷ lit "v2" ∷ lit "models" ∷ name ∷ lit "versions" ∷ rest)

scan-version :
    (name version n v : Text)
    → text_eq name (lit "models") ≡ false
    → text_eq version (lit "models") ≡ false
    → text_eq version (lit "versions") ≡ false
    → scan_segments (lit "models" ∷ name ∷ lit "versions" ∷ version ∷ lit "infer" ∷ []) n v
      ≡ (name, version)
unfolding scan_segments text_eq
scan-version name version n v a b c =
    rw (b, scan_segments) (rw (a, scan_segments) (rw (c, scan_segments) refl))

scan-no_version :
    (name n v : Text)
    → text_eq name (lit "models") ≡ false
    → scan_segments (lit "models" ∷ name ∷ lit "versions" ∷ lit "infer" ∷ []) n v
      ≡ (name, lit "infer")
unfolding scan_segments text_eq
scan-no_version name n v a = rw (a, scan_segments) refl

-- A literal is tested.
Lacks-test : (sep : ℕ) (t : Text) → any (λ c. c == sep) t ≡ false → Lacks sep t
Lacks-test sep [] e = tt
Lacks-test sep (c ∷ t) e = (ground (arith, e), Lacks-test sep t (ground (arith, e)))

-- The segments of the URL of a model, scanned.
segments_Lack :
    (scheme host name : Text) (rest : List Text)
    → Lacks b'/' scheme
    → Lacks b'/' host
    → Lacks b'/' name
    → All (Lacks b'/') rest
    → split b'/' (model_url scheme host name rest)
      ≡ (scheme ++ lit ":") ∷ [] ∷ host ∷ lit "v2" ∷ lit "models" ∷ name ∷ lit "versions" ∷ rest
segments_Lack scheme host name rest ls lh ln lr =
    split-joined (scheme ++ lit ":")
      ([] ∷ host ∷ lit "v2" ∷ lit "models" ∷ name ∷ lit "versions" ∷ rest)
      (
        Lacks-append b'/' scheme (lit ":") ls (Lacks-test b'/' (lit ":") refl),
        (
          tt,
          (
            lh,
            (
              Lacks-test b'/' (lit "v2") refl,
              (
                Lacks-test b'/' (lit "models") refl,
                (ln, (Lacks-test b'/' (lit "versions") refl, lr)),
              ),
            ),
          ),
        ),
      )

-- What the segments before leave does not matter, if the rest sets both names.
scan-skip :
    (before : List Text) (s : Text) (ss : List Text) (names : Text × Text)
    → ((n v : Text) → scan_segments (s ∷ ss) n v ≡ names)
    → (n v : Text) → scan_segments (before ++ s ∷ ss) n v ≡ names
unfolding scan_segments
scan-skip [] s ss names h n v = h n v
scan-skip (t ∷ []) s ss names h n v = h _ _
scan-skip (t ∷ u ∷ before) s ss names h n v = scan-skip (u ∷ before) s ss names h _ _

pub scan-model_url :
    (scheme host name version : Text)
    → Lacks b'/' scheme
    → Lacks b'/' host
    → Lacks b'/' name
    → Lacks b'/' version
    → text_eq name (lit "models") ≡ false
    → text_eq version (lit "models") ≡ false
    → text_eq version (lit "versions") ≡ false
    → scan_segments (split b'/' (model_url scheme host name (version ∷ lit "infer" ∷ []))) [] []
      ≡ (name, version)
unfolding scan_segments
scan-model_url scheme host name version ls lh ln lv a b c =
    ap (λ (l : List Text). scan_segments l [] [])
      (segments_Lack scheme host name (version ∷ lit "infer" ∷ []) ls lh ln
        (lv, (Lacks-test b'/' (lit "infer") refl, tt)))
    ∙ scan-skip ((scheme ++ lit ":") ∷ [] ∷ host ∷ lit "v2" ∷ []) (lit "models")
        (name ∷ lit "versions" ∷ version ∷ lit "infer" ∷ []) (name, version)
        (λ n v. scan-version name version n v a b c) [] []

pub scan-model_url_no_version :
    (scheme host name : Text)
    → Lacks b'/' scheme
    → Lacks b'/' host
    → Lacks b'/' name
    → text_eq name (lit "models") ≡ false
    → scan_segments (split b'/' (model_url scheme host name (lit "infer" ∷ []))) [] []
      ≡ (name, lit "infer")
unfolding scan_segments
scan-model_url_no_version scheme host name ls lh ln a =
    ap (λ (l : List Text). scan_segments l [] [])
      (segments_Lack scheme host name (lit "infer" ∷ []) ls lh ln
        (Lacks-test b'/' (lit "infer") refl, tt))
    ∙ scan-skip ((scheme ++ lit ":") ∷ [] ∷ host ∷ lit "v2" ∷ []) (lit "models")
        (name ∷ lit "versions" ∷ lit "infer" ∷ []) (name, lit "infer")
        (λ n v. scan-no_version name n v a) [] []
