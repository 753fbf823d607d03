-- ===== src/LoadBalancer/Rules/Weighted.antt =====
-- A choice by weights, and what nftables does with the ranges of a verdict map.
use waok8s.Prelude.{
  ℕ, zero, suc, ◌+◌, ◌-◌, ◌≤◌, ◌<◌, ◌^◌, ◌≡◌, refl, sym, ap, ◌∙◌, ◌⊎◌, inl, inr, Bool, true, false,
  ◌&&◌, List, [], ◌∷◌, Option, none, some, Text, Dict, lookup, lookup_or, leb, ltb, if◌then◌else◌,
  arith, Bool-cases,
}
use waok8s.Prelude.Int64.{ℤ, pos, negsuc, ltb_ℤ, add64, sub64, add64_pos, sub64_pos}
use waok8s.LoadBalancer.Rules.{EndpointInfo, Word, mod_range, colon, goto, comma, wao_elements}

-- What nftables does with the elements for the random number `r`.
abbrev pub leb_ℤ : ℤ → ℕ → Bool
leb_ℤ (pos a) r = leb a r
leb_ℤ (negsuc a) r = true

abbrev pub geb_ℤ : ℤ → ℕ → Bool
geb_ℤ (pos b) r = leb r b
geb_ℤ (negsuc b) r = false

unfoldable pub pick : List Word → ℕ → Option Text
pick [] r = none
pick (comma ∷ ws) r = pick ws r
pick (mod_range a b ∷ colon ∷ goto c ∷ ws) r = if leb_ℤ a r && geb_ℤ b r then some c else pick ws r
pick (w ∷ ws) r = none

-- The reference: the weight of an endpoint is its score, or 0, and the endpoints take the numbers from
-- 0 on in turn, each as many as its weight.
unfoldable pub weight_of : Dict ℤ → Option EndpointInfo → ℕ
unfolding lookup_or
weight_of scores none = 0
weight_of scores (some ep) = elim (lookup_or (pos 0) ep.ip scores) [ pos n ↦ n | negsuc n ↦ 0 ]

unfoldable pub weight_sum : Dict ℤ → List (Option EndpointInfo) → ℕ
weight_sum scores [] = 0
weight_sum scores (ep ∷ eps) = weight_of scores ep + weight_sum scores eps

abbrev pub chain_of : Option EndpointInfo → Option Text
chain_of none = none
chain_of (some ep) = some ep.chain_name

unfoldable pub pick_weighted : Dict ℤ → List (Option EndpointInfo) → ℕ → Option Text
pick_weighted scores [] r = none
pick_weighted scores (ep ∷ eps) r =
    if ltb r (weight_of scores ep)
    then chain_of ep
    else pick_weighted scores eps (r - weight_of scores ep)

module _ (scores : Dict ℤ) where
  -- What one endpoint adds to the elements.
  skipped :
      (t : ℕ) (ep : EndpointInfo) (eps : List (Option EndpointInfo))
      → (lookup ep.ip scores ≡ none)
        ⊎ ((score : ℤ) × (lookup ep.ip scores ≡ some score) × (ltb_ℤ (pos 0) score ≡ false))
      → wao_elements scores (pos t) (some ep ∷ eps) ≡ wao_elements scores (pos t) eps
  unfolding wao_elements
  skipped t ep eps (inl e) = rw (e, wao_elements) refl
  skipped t ep eps (inr (score, e, n)) = rw (e, wao_elements) (rw (n, wao_elements) refl)

  -- The elements for an endpoint with the positive score `n`.
  abbrev pub taken : ℕ → ℕ → EndpointInfo → List (Option EndpointInfo) → List Word × ℤ
  taken t n ep eps = (
    mod_range (pos t) (pos (t + n - 1))
        ∷ colon
        ∷ goto ep.chain_name
        ∷ comma
        ∷ (wao_elements scores (pos (t + n)) eps).0,
    (wao_elements scores (pos (t + n)) eps).1,
  )

  taken_lem :
      (t n : ℕ) (ep : EndpointInfo) (eps : List (Option EndpointInfo))
      → t + n < 2 ^ 63
      → 0 < n
      → lookup ep.ip scores ≡ some (pos n)
      → wao_elements scores (pos t) (some ep ∷ eps) ≡ taken t n ep eps
  unfolding wao_elements
  taken_lem t n ep eps b p e =
      let positive : ltb_ℤ (pos 0) (pos n) ≡ true = ground arith in
      let sum : add64 (pos t) (pos n) ≡ pos (t + n) = add64_pos t n b in
      let last : sub64 (pos (t + n)) (pos 1) ≡ pos (t + n - 1) =
        sub64_pos (t + n) 1 (omega arith) b in
      rw (e, wao_elements) (rw (positive, wao_elements) (rw (sum, last) refl))

  -- What one endpoint adds to the elements.
  pub step-cases :
      (t : ℕ) (ep : EndpointInfo) (eps : List (Option EndpointInfo))
      → t + weight_of scores (some ep) < 2 ^ 63
      → ((weight_of scores (some ep) ≡ 0)
          × (wao_elements scores (pos t) (some ep ∷ eps) ≡ wao_elements scores (pos t) eps))
        ⊎ ((0 < weight_of scores (some ep))
            × (wao_elements scores (pos t) (some ep ∷ eps)
                ≡ taken t (weight_of scores (some ep)) ep eps))
  unfolding weight_of lookup_or
  step-cases t ep eps b = at_score (lookup ep.ip scores) refl
    where
      at_score :
          (o : Option ℤ)
          → lookup ep.ip scores ≡ o
          → ((weight_of scores (some ep) ≡ 0)
              × (wao_elements scores (pos t) (some ep ∷ eps) ≡ wao_elements scores (pos t) eps))
            ⊎ ((0 < weight_of scores (some ep))
                × (wao_elements scores (pos t) (some ep ∷ eps)
                    ≡ taken t (weight_of scores (some ep)) ep eps))
      at_score none e = inl (rw (e, weight_of, lookup_or) refl, skipped t ep eps (inl e))
      at_score (some (negsuc n)) e =
          inl
            (rw (e, weight_of, lookup_or) refl, skipped t ep eps (inr (negsuc n, e, ground arith)))
      at_score (some (pos zero)) e =
          inl (rw (e, weight_of, lookup_or) refl, skipped t ep eps (inr (pos 0, e, ground arith)))
      at_score (some (pos (suc n))) e =
          let w : weight_of scores (some ep) ≡ suc n = rw (e, weight_of, lookup_or) refl in
          inr (
            omega (arith, w),
            rw w (taken_lem t (suc n) ep eps (omega (arith, b, w)) (omega arith) e),
          )

  pub elements-total :
      (t : ℕ) (eps : List (Option EndpointInfo))
      → t + weight_sum scores eps < 2 ^ 63
      → (wao_elements scores (pos t) eps).1 ≡ pos (t + weight_sum scores eps)
  unfolding wao_elements weight_sum weight_of
  elements-total t [] b = ground arith
  elements-total t (none ∷ eps) b = elements-total t eps (omega (arith, b)) ∙ ap pos (omega arith)
  elements-total t (some ep ∷ eps) b = elim (step-cases t ep eps (omega (arith, b))) [
    | inl (z, e) ↦
        ap (λ (x : List Word × ℤ). x.1) e
        ∙ elements-total t eps (omega (arith, b))
        ∙ ap pos (omega arith)
    | inr (p, e) ↦
        ap (λ (x : List Word × ℤ). x.1) e
        ∙ elements-total (t + weight_of scores (some ep)) eps (omega (arith, b))
        ∙ ap pos (omega arith)
  ]

  -- A number below the weight of the first endpoint, and any other.
  pub pick_weighted-first :
      (ep : Option EndpointInfo) (eps : List (Option EndpointInfo)) (r : ℕ)
      → r < weight_of scores ep
      → pick_weighted scores (ep ∷ eps) r ≡ chain_of ep
  unfolding pick_weighted
  pick_weighted-first ep eps r p =
      let e : ltb r (weight_of scores ep) ≡ true = ground arith in rw e refl

  pub pick_weighted-rest :
      (ep : Option EndpointInfo) (eps : List (Option EndpointInfo)) (r : ℕ)
      → weight_of scores ep ≤ r
      → pick_weighted scores (ep ∷ eps) r ≡ pick_weighted scores eps (r - weight_of scores ep)
  unfolding pick_weighted
  pick_weighted-rest ep eps r p =
      let e : ltb r (weight_of scores ep) ≡ false = ground arith in rw e refl

  pick-range :
      (a b : ℕ) (c : Text) (ws : List Word) (r : ℕ) (t : Bool)
      → (leb a r && leb r b) ≡ t
      → pick (mod_range (pos a) (pos b) ∷ colon ∷ goto c ∷ comma ∷ ws) r
        ≡ (if t then some c else pick ws r)
  unfolding pick
  pick-range a b c ws r t e = rw e refl

  pub pick-elements :
      (t : ℕ) (eps : List (Option EndpointInfo)) (r : ℕ)
      → t + weight_sum scores eps < 2 ^ 63
      → pick (wao_elements scores (pos t) eps).0 (t + r) ≡ pick_weighted scores eps r
  unfolding wao_elements weight_sum pick pick_weighted weight_of
  pick-elements t [] r b = refl
  pick-elements t (none ∷ eps) r b =
      let z : r - 0 ≡ r = omega arith in
      pick-elements t eps r (omega (arith, b))
      ∙ sym (pick_weighted-rest none eps r (omega arith) ∙ ap (pick_weighted scores eps) z)
  pick-elements t (some ep ∷ eps) r b = elim (step-cases t ep eps (omega (arith, b))) [
    | inl (z, e) ↦
        let zero_weight : r - weight_of scores (some ep) ≡ r = omega (arith, z) in
        ap (λ (x : List Word × ℤ). pick x.0 (t + r)) e
        ∙ pick-elements t eps r (omega (arith, b))
        ∙ sym (
            pick_weighted-rest (some ep) eps r (omega (arith, z))
            ∙ ap (pick_weighted scores eps) zero_weight)
    | inr (p, e) ↦ elim (Bool-cases (ltb r (weight_of scores (some ep)))) [
      | inl less ↦
          let below : r < weight_of scores (some ep) = ground (arith, less) in
          let w = weight_of scores (some ep) in
          ap (λ (x : List Word × ℤ). pick x.0 (t + r)) e
          ∙ pick-range t (t + weight_of scores (some ep) - 1) ep.chain_name
              (wao_elements scores (pos (t + weight_of scores (some ep))) eps).0 (t + r) true
              (ground (arith, below))
          ∙ sym (pick_weighted-first (some ep) eps r below)
      | inr more ↦
          let above : weight_of scores (some ep) ≤ r = ground (arith, more) in
          let shift : t + r ≡ t + weight_of scores (some ep) + (r - weight_of scores (some ep)) =
            omega (arith, above) in
          ap (λ (x : List Word × ℤ). pick x.0 (t + r)) e
          ∙ pick-range t (t + weight_of scores (some ep) - 1) ep.chain_name
              (wao_elements scores (pos (t + weight_of scores (some ep))) eps).0 (t + r) false
              (ground (arith, above, p))
          ∙ ap (pick (wao_elements scores (pos (t + weight_of scores (some ep))) eps).0) shift
          ∙ pick-elements (t + weight_of scores (some ep)) eps (r - weight_of scores (some ep))
              (omega (arith, b))
          ∙ sym (pick_weighted-rest (some ep) eps r above)
    ]
  ]
