-- ===== src/LoadBalancer/Service/Order.antt =====
-- What Score leaves under each key, and that the order of the service ports, which comes from the
-- iteration over a Go map, does not matter.
use waok8s.Prelude.{
  ◌≡◌, ◌≢◌, inl, inr, refl, sym, ap, ◌∙◌, Bool, true, false, List, [], ◌∷◌, Option, none, some,
  Text, Dict, lookup, lookup-insert, text_eq, text_eq_self, text_eq→eq, Result, ok, err,
  Result-cases, if◌then◌else◌, arith, Bool-cases,
}
use waok8s.Prelude.Int64.{ℤ}
use waok8s.Prelude.Float.{Floats}
use waok8s.LoadBalancer.ScoreNode.{Stop, unscored, failed, panicked}
use waok8s.LoadBalancer.Service.{ServiceEnv, store_scores, score_from, score}
use waok8s.LoadBalancer.Service.Laws.{service_of}

unfoldable pub among : Text → List Text → Bool
unfolding text_eq
among key [] = false
among key (name ∷ names) = if text_eq name key then true else among key names

-- The weights that are kept of an outcome of `ScoreService`.
unfoldable pub kept : Result Stop (Dict ℤ) → Option (Dict ℤ)
kept (ok []) = none
kept (ok (s ∷ scores)) = some (s ∷ scores)
kept (err x) = none

unfoldable pub or_else : Option (Dict ℤ) → Option (Dict ℤ) → Option (Dict ℤ)
or_else none other = other
or_else (some s) other = some s

-- One piece writes its own key, or none.
lookup-store_scores :
    (name key : Text) (r : Result Stop (Dict ℤ)) (all out : Dict (Dict ℤ))
    → store_scores name r all ≡ ok out
    → lookup key out
      ≡ (if text_eq name key then or_else (kept r) (lookup key all) else lookup key all)
unfolding store_scores kept or_else
lookup-store_scores name key (ok []) all out e = ground (arith, e)
lookup-store_scores name key (ok (s ∷ t)) all out e =
    ground (arith, e, lookup-insert name key (s ∷ t) all)
lookup-store_scores name key (err unscored) all out e = ground (arith, e)
lookup-store_scores name key (err failed) all out e = ground (arith, e)
lookup-store_scores name key (err panicked) all out e = absurd (ground (arith, e))

or_else-again : (w x : Option (Dict ℤ)) → or_else w (or_else w x) ≡ or_else w x
unfolding or_else
or_else-again none x = refl
or_else-again (some s) x = refl

or_else-none : (w : Option (Dict ℤ)) → or_else w none ≡ w
unfolding or_else
or_else-none none = refl
or_else-none (some s) = refl

-- A piece that comes to its end has not panicked, and the other way round.
store_scores-ok :
    (name : Text) (r : Result Stop (Dict ℤ)) (all : Dict (Dict ℤ))
    → r ≢ err panicked
    → (out : Dict (Dict ℤ)) × (store_scores name r all ≡ ok out)
unfolding store_scores
store_scores-ok name (ok []) all n = (_, refl)
store_scores-ok name (ok (s ∷ t)) all n = (_, refl)
store_scores-ok name (err unscored) all n = (_, refl)
store_scores-ok name (err failed) all n = (_, refl)
store_scores-ok name (err panicked) all n = absurd (n refl)

store_scores-ne_panicked :
    (name : Text) (r : Result Stop (Dict ℤ)) (all out : Dict (Dict ℤ))
    → store_scores name r all ≡ ok out
    → r ≢ err panicked
unfolding store_scores
store_scores-ne_panicked name (err panicked) all out e f = absurd (ground (arith, e))
store_scores-ne_panicked name (err unscored) all out e f = ground (arith, f)
store_scores-ne_panicked name (err failed) all out e f = ground (arith, f)
store_scores-ne_panicked name (ok s) all out e f = ground (arith, f)

module _ (fl : Floats) (env : ServiceEnv fl.F) (ip_family format : Text) where
  abbrev weights_of : Text → Option (Dict ℤ)
  weights_of name = kept (service_of fl env ip_family format name)

  lookup-score_from :
      (key : Text) (all : Dict (Dict ℤ)) (names : List Text) (out : Dict (Dict ℤ))
      → score_from fl env ip_family format all names ≡ ok out
      → lookup key out
        ≡ (if among key names then or_else (weights_of key) (lookup key all) else lookup key all)
  unfolding score_from among
  lookup-score_from key all [] out e = ground (arith, e)
  lookup-score_from key all (name ∷ names) out e =
      elim (Result-cases (store_scores name (service_of fl env ip_family format name) all)) [
        | inr (x, g) ↦ absurd (ground (arith, g, e))
        | inl (all', g) ↦
            let rest : score_from fl env ip_family format all' names ≡ ok out =
              ground (arith, g, e) in
            let ih = lookup-score_from key all' names out rest in
            let step = lookup-store_scores name key _ all all' g in
            elim (Bool-cases (text_eq name key)) [
              | inr other ↦ rw other (ih ∙ rw (step, other) refl)
              | inl same ↦
                  let at_key : lookup key all' ≡ or_else (weights_of key) (lookup key all) =
                    rw same at step
                    ∙ ap (λ (n : Text). or_else (weights_of n) (lookup key all))
                        (text_eq→eq name key same) in
                  rw same (
                    ih ∙ elim (Bool-cases (among key names)) [
                      | inl later ↦ rw later (
                          ap (or_else (weights_of key)) at_key
                          ∙ or_else-again (weights_of key) (lookup key all))
                      | inr last ↦ rw last at_key
                    ])
            ]
      ]

  -- Score leaves exactly this under each key: for a name that it is given, the weights that ScoreService
  -- returns for its service, if there is at least one and no error; and nothing under any other key.
  pub lookup-score :
      (key : Text) (names : List Text) (out : Dict (Dict ℤ))
      → score fl env ip_family format names ≡ ok out
      → lookup key out ≡ (if among key names then weights_of key else none)
  unfolding score lookup
  lookup-score key names out e =
      lookup-score_from key [] names out e
      ∙ ap (λ w. if among key names then w else none) (or_else-none (weights_of key))

  -- No service of the names makes ScoreService panic.
  abbrev NonePanics : List Text → Type 0
  NonePanics names =
      (name : Text)
      → among name names ≡ true
      → service_of fl env ip_family format name ≢ err panicked

  score_from-total :
      (all : Dict (Dict ℤ)) (names : List Text)
      → NonePanics names
      → (out : Dict (Dict ℤ)) × (score_from fl env ip_family format all names ≡ ok out)
  unfolding score_from among
  score_from-total all [] h = (all, refl)
  score_from-total all (name ∷ names) h =
      let (all', g) =
        store_scores-ok name (service_of fl env ip_family format name) all
          (h name (rw (text_eq_self name) refl)) in
      let (out, e) = score_from-total all' names (λ n m. h n (ground (arith, m))) in
      (out, rw (g, score_from) e)

  score_from-NonePanics :
      (all : Dict (Dict ℤ)) (names : List Text) (out : Dict (Dict ℤ))
      → score_from fl env ip_family format all names ≡ ok out
      → NonePanics names
  unfolding score_from among
  score_from-NonePanics all [] out e n m = cc
  score_from-NonePanics all (name ∷ names) out e n m =
      elim (Result-cases (store_scores name (service_of fl env ip_family format name) all)) [
        | inr (x, g) ↦ absurd (ground (arith, g, e))
        | inl (all', g) ↦
            let rest : score_from fl env ip_family format all' names ≡ ok out =
              ground (arith, g, e) in
            elim (Bool-cases (text_eq name n)) [
              | inl same ↦ rw (← text_eq→eq name n same) (
                  store_scores-ne_panicked name (service_of fl env ip_family format name) all all'
                    g)
              | inr other ↦ score_from-NonePanics all' names out rest n (rw other at m)
            ]
      ]

  -- The order of the service ports does not matter: if two lists hold the same names, and Score returns
  -- for one, then it returns for the other, and leaves the same weights under every key.
  pub score-order :
      (names names' : List Text) (out : Dict (Dict ℤ))
      → ((name : Text) → among name names ≡ among name names')
      → score fl env ip_family format names ≡ ok out
      → (out' : Dict (Dict ℤ)) × (score fl env ip_family format names' ≡ ok out')
        × ((key : Text) → lookup key out' ≡ lookup key out)
  unfolding score
  score-order names names' out same e =
      let (out', f) =
        score_from-total [] names' (λ n m. score_from-NonePanics [] names out e n (same n ∙ m)) in
      (
        out',
        f,
        λ key.
            lookup-score key names' out' f
            ∙ ap (λ b. if b then weights_of key else none) (sym (same key))
            ∙ sym (lookup-score key names out e),
      )
