-- ===== src/LoadBalancer/Rules/Laws.antt =====
-- The verdict map of a service against a reference: a choice by weights.
use waok8s.Prelude.{
  ℕ, ◌+◌, ◌-◌, ◌≤◌, ◌<◌, ◌^◌, ◌≡◌, refl, sym, ap, ◌∙◌, ◌⊎◌, inl, inr, true, List, [], ◌∷◌, Option,
  none, some, Text, Dict, lookup_or, ltb, arith, Bool-cases,
}
use waok8s.Prelude.Int64.{ℤ, pos, negsuc, ltb_ℤ}
use waok8s.LoadBalancer.Rules.{
  EndpointInfo, Word, mod_range, colon, goto, comma, balance, ips, any_positive, wao_elements,
  drop_last, balance_rule,
}
use waok8s.LoadBalancer.Rules.Weighted.{
  pick, weight_of, weight_sum, pick_weighted, step-cases, elements-total, pick_weighted-first,
  pick_weighted-rest, pick-elements,
}

module _ (scores : Dict ℤ) where
  -- Every number below the sum of the weights chooses an endpoint, so a weight is positive.
  pick_weighted-total :
      (eps : List (Option EndpointInfo)) (r : ℕ)
      → r < weight_sum scores eps
      → (c : Text) × (pick_weighted scores eps r ≡ some c)
  unfolding weight_sum weight_of
  pick_weighted-total [] r p = absurd (omega (arith, p))
  pick_weighted-total (none ∷ eps) r p =
      let (c, e) = pick_weighted-total eps r (omega (arith, p)) in
      let z : r - 0 ≡ r = omega arith in
      (c, pick_weighted-rest scores none eps r (omega arith) ∙ ap (pick_weighted scores eps) z ∙ e)
  pick_weighted-total (some ep ∷ eps) r p = elim (Bool-cases (ltb r (weight_of scores (some ep)))) [
    | inl less ↦ (ep.chain_name, pick_weighted-first scores (some ep) eps r (ground (arith, less)))
    | inr more ↦
        let above : weight_of scores (some ep) ≤ r = ground (arith, more) in
        let (c, e) =
          pick_weighted-total eps (r - weight_of scores (some ep)) (omega (arith, p, above)) in
        (c, pick_weighted-rest scores (some ep) eps r above ∙ e)
  ]

  any_positive-cons :
      (ip : Text) (rest : List Text)
      → any_positive scores rest ≡ true
      → any_positive scores (ip ∷ rest) ≡ true
  unfolding any_positive
  any_positive-cons ip rest e = ground (arith, e)

  any_positive-head :
      (ep : EndpointInfo) (rest : List Text)
      → 0 < weight_of scores (some ep)
      → any_positive scores (ep.ip ∷ rest) ≡ true
  unfolding any_positive weight_of
  any_positive-head ep rest p = at_score (lookup_or (pos 0) ep.ip scores) refl
    where
      at_score :
          (s : ℤ) → lookup_or (pos 0) ep.ip scores ≡ s → any_positive scores (ep.ip ∷ rest) ≡ true
      at_score (negsuc n) e =
          let z : weight_of scores (some ep) ≡ 0 = rw (e, weight_of) refl in
          absurd (omega (arith, p, z))
      at_score (pos n) e =
          let w : weight_of scores (some ep) ≡ n = rw (e, weight_of) refl in
          let q : 0 < n = omega (arith, p, w) in
          let y : ltb_ℤ (pos 0) (pos n) ≡ true = ground (arith, q) in rw e (rw y refl)

  any_positive-weight_sum :
      (eps : List (Option EndpointInfo))
      → 0 < weight_sum scores eps
      → any_positive scores (ips eps) ≡ true
  unfolding any_positive ips weight_sum weight_of
  any_positive-weight_sum [] p = absurd (omega (arith, p))
  any_positive-weight_sum (none ∷ eps) p =
      any_positive-cons [] (ips eps) (any_positive-weight_sum eps (omega (arith, p)))
  any_positive-weight_sum (some ep ∷ eps) p =
      elim (Bool-cases (ltb 0 (weight_of scores (some ep)))) [
        | inl positive ↦ any_positive-head ep (ips eps) (ground (arith, positive))
        | inr zero_weight ↦
            let z : weight_of scores (some ep) ≡ 0 = ground (arith, zero_weight) in
            any_positive-cons ep.ip (ips eps) (any_positive-weight_sum eps (omega (arith, p, z)))
      ]

-- The elements are ranges, each followed by a comma.
data IsRanges : List Word → Type 0 where
  empty : IsRanges []
  range :
      (a b : ℤ) (c : Text) (ws : List Word)
      → IsRanges ws
      → IsRanges (mod_range a b ∷ colon ∷ goto c ∷ comma ∷ ws)

wao_elements-IsRanges :
    (scores : Dict ℤ) (t : ℕ) (eps : List (Option EndpointInfo))
    → t + weight_sum scores eps < 2 ^ 63
    → IsRanges (wao_elements scores (pos t) eps).0
unfolding wao_elements weight_sum weight_of
wao_elements-IsRanges scores t [] b = empty
wao_elements-IsRanges scores t (none ∷ eps) b =
    wao_elements-IsRanges scores t eps (omega (arith, b))
wao_elements-IsRanges scores t (some ep ∷ eps) b =
    elim (step-cases scores t ep eps (omega (arith, b))) [
      | inl (z, e) ↦ rw e (wao_elements-IsRanges scores t eps (omega (arith, b)))
      | inr (p, e) ↦ rw e (
          range _ _ _ _
            (wao_elements-IsRanges scores (t + weight_of scores (some ep)) eps (omega (arith, b))))
    ]

drop_last-cons :
    (w : Word) (ws : List Word) (shorter : List Word)
    → drop_last ws ≡ some shorter
    → drop_last (w ∷ ws) ≡ some (w ∷ shorter)
unfolding drop_last
drop_last-cons w [] shorter e = absurd (ground arith)
drop_last-cons w (v ∷ ws) shorter e = rw e refl

drop_last-group :
    (a b : ℤ) (c : Text) (ws shorter : List Word)
    → drop_last ws ≡ some shorter
    → drop_last (mod_range a b ∷ colon ∷ goto c ∷ comma ∷ ws)
      ≡ some (mod_range a b ∷ colon ∷ goto c ∷ comma ∷ shorter)
drop_last-group a b c ws shorter e =
    drop_last-cons _ _ _
      (drop_last-cons _ _ _ (drop_last-cons _ _ _ (drop_last-cons comma ws shorter e)))

-- Without the last comma, they choose the same.
drop_last-pick :
    {ws : List Word}
    → IsRanges ws
    → (ws ≡ [])
      ⊎ ((shorter : List Word) × (drop_last ws ≡ some shorter)
          × ((r : ℕ) → pick shorter r ≡ pick ws r))
unfolding drop_last pick
drop_last-pick empty = inl refl
drop_last-pick (range a b c ws is) = inr (at_rest (drop_last-pick is))
  where
    at_rest :
        (ws ≡ [])
          ⊎ ((shorter : List Word) × (drop_last ws ≡ some shorter)
              × ((r : ℕ) → pick shorter r ≡ pick ws r))
        → (shorter : List Word) × (drop_last (mod_range a b ∷ colon ∷ goto c ∷ comma ∷ ws)
            ≡ some shorter)
          × ((r : ℕ) → pick shorter r ≡ pick (mod_range a b ∷ colon ∷ goto c ∷ comma ∷ ws) r)
    at_rest (inl e) = (mod_range a b ∷ colon ∷ goto c ∷ [], rw e refl, λ r. rw e refl)
    at_rest (inr (shorter, e, same)) = (
      mod_range a b ∷ colon ∷ goto c ∷ comma ∷ shorter,
      drop_last-group a b c ws shorter e,
      λ r. rw (same r) refl,
    )

-- If the weights sum to less than 2^63, then for each number `r` below the sum the rule is written without
-- a panic, its modulus is the sum of the weights, and its verdict map sends `r` to the chain of the
-- endpoint whose share of the numbers holds `r`.
pub balance_rule-weights :
    (scores : Dict ℤ) (eps : List (Option EndpointInfo)) (r : ℕ)
    → weight_sum scores eps < 2 ^ 63
    → r < weight_sum scores eps
    → (ws : List Word) × (balance_rule (some scores) eps
        ≡ some (balance (pos (weight_sum scores eps)) ws))
      × ((c : Text) × (pick ws r ≡ some c) × (pick_weighted scores eps r ≡ some c))
unfolding balance_rule pick
balance_rule-weights scores eps r b p =
    let (c, chosen) = pick_weighted-total scores eps r p in
    let zero_plus : 0 + weight_sum scores eps ≡ weight_sum scores eps = omega arith in
    let b0 : 0 + weight_sum scores eps < 2 ^ 63 = rw zero_plus b in
    let z : r ≡ 0 + r = omega arith in
    let same : pick (wao_elements scores (pos 0) eps).0 r ≡ pick_weighted scores eps r =
      ap (pick (wao_elements scores (pos 0) eps).0) z ∙ pick-elements scores 0 eps r b0 in
    let total : (wao_elements scores (pos 0) eps).1 ≡ pos (weight_sum scores eps) =
      elements-total scores 0 eps b0 ∙ ap pos zero_plus in
    let positive : any_positive scores (ips eps) ≡ true =
      any_positive-weight_sum scores eps (omega (arith, p)) in
    elim (drop_last-pick (wao_elements-IsRanges scores 0 eps b0)) [
      | inl nothing ↦
          let impossible : none ≡ some c =
            sym (ap (λ (ws : List Word). pick ws r) nothing) ∙ same ∙ chosen in
          absurd (ground arith)
      | inr (shorter, e, keeps) ↦ (
        shorter,
        rw (positive, balance_rule) (rw (e, total) refl),
        (c, keeps r ∙ same ∙ chosen, chosen),
      )
    ]
