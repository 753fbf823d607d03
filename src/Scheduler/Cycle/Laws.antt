-- ===== src/Scheduler/Cycle/Laws.antt =====
-- What one scheduling cycle decides.
use mathlib.Core.Path.{ap₂}
use waok8s.Prelude.{
  ◌≡◌, ◌≢◌, refl, sym, ap, ◌∙◌, ◌⊎◌, arith, inl, inr, ℕ, ◌≤◌, ◌<◌, ◌*◌, ◌-◌, ◌^◌, List, [], ◌∷◌,
  map, Option, some, Text, In, here, there, All, In-map, ok,
}
use waok8s.Prelude.Int64.{ℤ, pos, ◌≤ℤ◌}
use waok8s.Prelude.Float.{Floats}
use waok8s.Kube.{Pod}
use waok8s.Scheduler.Normalize.{NodeScore, score_error, score_max}
use waok8s.Scheduler.Normalize.Names.{Distinct}
use waok8s.Scheduler.Normalize.Range.{IsScored}
use waok8s.Scheduler.Normalize.Laws.{Ranked, normalize_score_orders}
use waok8s.Scheduler.Power.{MinimizePowerArgs, PowerEnv, score, score_steps}
use waok8s.Scheduler.Power.Outcome.{NeverNil, score_total}
use waok8s.Scheduler.Power.Cases.{Unscored, Overcommitted, Predicted, score_steps-cases}
use waok8s.Scheduler.Cycle.{score_nodes, score_cycle}

-- No name stands twice in the list.
abbrev pub AllDifferent : List Text → Type 0
AllDifferent [] = Unit {0}
AllDifferent (name ∷ names) = All (λ n. name ≢ n) names × AllDifferent names

module _ (fl : Floats) (env : PowerEnv fl.F) (never_nil : NeverNil env)
    (args : MinimizePowerArgs fl.F) (pod : Pod fl.F) where
  -- The score of a node, which Score always returns here.
  abbrev score_of : Text → ℤ
  score_of name = (score_total fl env never_nil args pod name).0

  abbrev entry : Text → NodeScore
  entry name = record { name = name; score = score_of name }

  score_nodes-map : (names : List Text) → score_nodes fl env args pod names ≡ some (map entry names)
  unfolding score_nodes
  score_nodes-map [] = refl
  score_nodes-map (name ∷ names) =
      rw ((score_total fl env never_nil args pod name).1, score_nodes)
        (rw (score_nodes-map names, score_nodes) refl)

  entries-All :
      (name : Text) (names : List Text)
      → All (λ n. name ≢ n) names
      → All (λ (t : NodeScore). name ≢ t.name) (map entry names)
  entries-All name [] h = tt
  entries-All name (n ∷ names) h = (h.0, entries-All name names h.1)

  entries-Distinct : (names : List Text) → AllDifferent names → Distinct (map entry names)
  entries-Distinct [] h = tt
  entries-Distinct (name ∷ names) h = (entries-All name names h.0, entries-Distinct names h.1)

  -- The predicted watts leave room for the arithmetic of NormalizeScore.
  abbrev pub IsModest : ℕ → List Text → Type 0
  IsModest top names =
      (name : Text) (n : ℕ)
      → In name names
      → score_steps fl env args pod name ≡ ok (pos n)
      → (n * (top - 20) < 2 ^ 63) × (n < 2 ^ 62 - 1)

  some_inj : {s t : ℤ} → ◌≡◌ {A = Option ℤ} (some s) (some t) → s ≡ t
  some_inj e = cc

  -- The three ends of Score, as scores.
  score_of-cases :
      (name : Text)
      → (Unscored fl env args pod name × (score_of name ≡ score_error))
        ⊎ (Overcommitted fl env args pod name × (score_of name ≡ score_max))
        ⊎ ((n : ℕ) × Predicted fl env args pod name n
            × (score_steps fl env args pod name ≡ ok (pos n))
            × (score_of name ≡ pos n))
  unfolding score
  score_of-cases name =
      let its_score = (score_total fl env never_nil args pod name).1 in
      elim (score_steps-cases fl env args pod never_nil name) [
        | inl (why, e) ↦ inl (why, sym (some_inj (rw (e, score) at its_score)))
        | inr (inl (why, e)) ↦ inr (inl (why, sym (some_inj (rw (e, score) at its_score))))
        | inr (inr (n, why, e)) ↦ inr (inr (n, why, e, sym (some_inj (rw (e, score) at its_score))))
      ]

  entry-IsScored :
      (top : ℕ) (names : List Text) (name : Text)
      → IsModest top names
      → In name names
      → IsScored top (entry name)
  entry-IsScored top names name modest i = elim (score_of-cases name) [
    | inl (why, e) ↦ inl e
    | inr (inl (why, e)) ↦ inr (inl e)
    | inr (inr (n, why, e, q)) ↦ let (b, c) = modest name n i e in inr (inr (n, q, b, c))
  ]

  -- The rank of a node, with its reason.
  abbrev pub Rated : ℕ → Text → ℤ → Type 0
  Rated top name rank =
      (Unscored fl env args pod name × (rank ≡ pos 0))
      ⊎ (Overcommitted fl env args pod name × (rank ≡ pos 1))
      ⊎ ((n r : ℕ) × Predicted fl env args pod name n
          × (score fl env args pod name ≡ some (pos n))
          × (rank ≡ pos r)
          × (20 ≤ r)
          × (r ≤ top))

  Ranked-Rated :
      (top : ℕ) (names : List Text) (name : Text) (rank : ℤ)
      → IsModest top names
      → In name names
      → Ranked top (score_of name) rank
      → Rated top name rank
  Ranked-Rated top names name rank modest i ranked = elim (score_of-cases name) [
    | inl (why, e) ↦ inl (why, error_rank rank (rw e at ranked))
    | inr (inl (why, e)) ↦ inr (inl (why, max_rank rank (rw e at ranked)))
    | inr (inr (n, why, e, q)) ↦
        let (r, f, low, high) = watt_rank n rank (modest name n i e).1 (rw q at ranked) in
        inr (
          inr (n, r, why, (score_total fl env never_nil args pod name).1 ∙ ap some q, f, low, high))
  ]
    where
      error_rank : (r : ℤ) → Ranked top score_error r → r ≡ pos 0
      error_rank r (inl (_, e)) = e
      error_rank r (inr (inl (e, _))) = absurd (ground (arith, e))
      error_rank r (inr (inr ((n, e, _, b), _, _, _, _))) = absurd (ground (arith, e, b))

      max_rank : (r : ℤ) → Ranked top score_max r → r ≡ pos 1
      max_rank r (inl (e, _)) = absurd (ground (arith, e))
      max_rank r (inr (inl (_, e))) = e
      max_rank r (inr (inr ((n, e, _, b), _, _, _, _))) = absurd (ground (arith, e, b))

      watt_rank :
          (n : ℕ) (r : ℤ)
          → n < 2 ^ 62 - 1
          → Ranked top (pos n) r
          → (k : ℕ) × (r ≡ pos k) × (20 ≤ k) × (k ≤ top)
      watt_rank n r b (inl (e, _)) = absurd (ground (arith, e, b))
      watt_rank n r b (inr (inl (e, _))) = absurd (ground (arith, e, b))
      watt_rank n r b (inr (inr (_, k, e, l, h))) = (k, e, l, h)

  entries-IsScored :
      (top : ℕ) (all names : List Text)
      → IsModest top all
      → ((name : Text) → In name names → In name all)
      → All (IsScored top) (map entry names)
  entries-IsScored top all [] modest within = tt
  entries-IsScored top all (name ∷ names) modest within = (
    entry-IsScored top all name modest (within name (here refl)),
    entries-IsScored top all names modest (λ n i. within n (there i)),
  )

  module _ (f : NodeScore → NodeScore) (keeps : (s : NodeScore) → (f s).name ≡ s.name) where
    abbrev rank_of : Text → ℤ
    rank_of name = (f (entry name)).score

    ranked_entry : (name : Text) → f (entry name) ≡ record { name = name; score = rank_of name }
    ranked_entry name = ap (λ n. record { name = n; score = rank_of name }) (keeps (entry name))

    map-entries :
        (names : List Text)
        → map f (map entry names) ≡ map (λ name. record { name = name; score = rank_of name }) names
    map-entries [] = refl
    map-entries (name ∷ names) = ap₂ ◌∷◌ (ranked_entry name) (map-entries names)

  -- Over nodes of different names, where no client returns nil without an error and the predicted watts
  -- leave room for the arithmetic: Score and NormalizeScore give each node one rank. It is 0 where the node
  -- or its usage is not known, or the pod asks for nothing, or it fits and nothing is predicted; 1 where the
  -- pod asks for more CPU than the capacity has left; and otherwise, where the pod fits and watts are
  -- predicted, which are then the score by Score, from 20 to the top. Of two nodes, the one with the lower
  -- score by Score never gets the lower rank.
  pub score_cycle-ranks :
      (top : ℕ) (names : List Text)
      → 20 ≤ top
      → top < 2 ^ 63
      → AllDifferent names
      → IsModest top names
      → (rank : Text → ℤ) × (score_cycle fl env args pod (pos top) names
          ≡ some (map (λ name. record { name = name; score = rank name }) names))
        × ((name : Text) → In name names → Rated top name (rank name))
        × ((a b : Text) (s t : ℤ)
            → In a names
            → In b names
            → score fl env args pod a ≡ some s
            → score fl env args pod b ≡ some t
            → s ≤ℤ t
            → rank b ≤ℤ rank a)
  unfolding score_cycle
  score_cycle-ranks top names low high different modest =
      let (f, mapped, keeps, ranks, orders) =
        normalize_score_orders top (map entry names) low high (entries-Distinct names different)
          (entries-IsScored top names names modest (λ n i. i)) in
      (
        rank_of f keeps,
        rw (score_nodes-map names, score_cycle) (ap some (mapped ∙ map-entries f keeps names)),
        λ name i.
            Ranked-Rated top names name (rank_of f keeps name) modest i
              (ranks (entry name) (In-map entry names i)),
        λ a b s t i j p q le.
            let first : score_of a ≡ s =
              some_inj (sym (score_total fl env never_nil args pod a).1 ∙ p) in
            let second : score_of b ≡ t =
              some_inj (sym (score_total fl env never_nil args pod b).1 ∙ q) in
            orders (entry a) (entry b) (In-map entry names i) (In-map entry names j)
              (rw (first, second) le),
      )
