-- ===== src/Scheduler/Normalize/Names.antt =====
-- The map from node names to new scores, and what the last loop reads from it.
use waok8s.Prelude.{
  ◌≡◌, refl, sym, ap, ◌∙◌, ◌≢◌, ◌⊎◌, inl, inr, List, [], ◌∷◌, map, Option, none, some, Text, Dict,
  lookup, insert, lookup_or, lookup-insert, lookup-insert_ne, In, here, there, All, All-In, arith,
  text_eq_iff, Bool-cases, text_eq, Option-cases, lookup-insert_self, map-congr_In,
}
use waok8s.Prelude.Int64.{ℤ}
use waok8s.Scheduler.Normalize.{
  NodeScore, ReplaceMap, replacement, replaced_scores, calculated_scores, rescale, rescale_all,
  insert_all, power_consumptions_to_scores, highest_from, lowest_from,
}
use waok8s.Prelude.Int64.{min_int64, max_int64}

-- No two entries have the same name.
abbrev pub Distinct : List NodeScore → Type 0
Distinct [] = Unit
Distinct (s ∷ scores) = All (λ t. s.name ≢ t.name) scores × Distinct scores

-- Entries of one name are one entry.
abbrev pub Unambiguous : List NodeScore → Type 0
Unambiguous scores = (s t : NodeScore) → In s scores → In t scores → s.name ≡ t.name → s ≡ t

pub Distinct-Unambiguous : (scores : List NodeScore) → Distinct scores → Unambiguous scores
Distinct-Unambiguous [] d s t i j e = elim i [ ]
Distinct-Unambiguous (x ∷ xs) d s t (here p) (here q) e = p ∙ sym q
Distinct-Unambiguous (x ∷ xs) d s t (here p) (there q) e =
    absurd (All-In (λ t. x.name ≢ t.name) xs d.0 q (sym (ap (λ (u : NodeScore). u.name) p) ∙ e))
Distinct-Unambiguous (x ∷ xs) d s t (there p) (here q) e =
    absurd (All-In (λ t. x.name ≢ t.name) xs d.0 p (sym (e ∙ ap (λ (u : NodeScore). u.name) q)))
Distinct-Unambiguous (x ∷ xs) d s t (there p) (there q) e = Distinct-Unambiguous xs d.1 s t p q e

pub insert_all-miss :
    (k : Text) (xs : List NodeScore) (m : Dict NodeScore)
    → ((e : NodeScore) → In e xs → e.name ≢ k)
    → lookup k (insert_all xs m) ≡ lookup k m
unfolding insert_all
insert_all-miss k [] m h = refl
insert_all-miss k (x ∷ xs) m h =
    insert_all-miss k xs (insert x.name x m) (λ e i. h e (there i))
    ∙ lookup-insert_ne x.name k x m (h x (here refl))

pub insert_all-hit :
    (x : NodeScore) (xs : List NodeScore) (m : Dict NodeScore)
    → ((e : NodeScore) → In e xs → e.name ≡ x.name → e ≡ x)
    → (lookup x.name m ≡ some x) ⊎ In x xs
    → lookup x.name (insert_all xs m) ≡ some x
unfolding insert_all
insert_all-hit x [] m h (inl e) = e
insert_all-hit x [] m h (inr i) = elim i [ ]
insert_all-hit x (y ∷ ys) m h (inr (there i)) =
    insert_all-hit x ys (insert y.name y m) (λ e j. h e (there j)) (inr i)
insert_all-hit x (y ∷ ys) m h (inr (here p)) =
    insert_all-hit x ys (insert y.name y m) (λ e j. h e (there j))
      (inl (rw p (lookup-insert_self y.name y m)))
insert_all-hit x (y ∷ ys) m h (inl e) =
    insert_all-hit x ys (insert y.name y m) (λ e j. h e (there j)) (inl kept)
  where
    kept : lookup x.name (insert y.name y m) ≡ some x
    kept = elim (Bool-cases (text_eq y.name x.name)) [
      | inl same ↦
          lookup-insert y.name x.name y m
          ∙ rw same (ap some (h y (here refl) ((text_eq_iff y.name x.name).0 same)))
      | inr other ↦ lookup-insert y.name x.name y m ∙ rw other e
    ]

-- What `PowerConsumptions2Scores` gives one node.
unfoldable pub new_score : ℤ → ℤ → ℤ → ℤ → ReplaceMap → NodeScore → NodeScore
new_score top base highest lowest rm s = elim (replacement rm s.score) [
  | some v ↦ record { name = s.name; score = v }
  | none ↦ record { name = s.name; score = rescale top base highest lowest s.score }
]

module _ (rm : ReplaceMap) where
  In-replaced :
      (s : NodeScore) (scores : List NodeScore) (v : ℤ)
      → replacement rm s.score ≡ some v
      → In s scores
      → In (record { name = s.name; score = v }) (replaced_scores rm scores)
  unfolding replaced_scores
  In-replaced s [] v e i = elim i [ ]
  In-replaced s (x ∷ xs) v e (here p) =
      rw (sym (ap (λ (u : NodeScore). replacement rm u.score) p) ∙ e, replaced_scores)
        (here (ap (λ (u : NodeScore). record { name = u.name; score = v }) p))
  In-replaced s (x ∷ xs) v e (there i) = elim (Option-cases (replacement rm x.score)) [
    | inl n ↦ rw (n, replaced_scores) (In-replaced s xs v e i)
    | inr (w, q) ↦ rw (q, replaced_scores) (there (In-replaced s xs v e i))
  ]

  In-replaced_cases :
      (t : NodeScore) (scores : List NodeScore)
      → In t (replaced_scores rm scores)
      → (s : NodeScore) × In s scores × (s.name ≡ t.name) × (replacement rm s.score ≡ some t.score)
  unfolding replaced_scores
  In-replaced_cases t [] i = elim i [ ]
  In-replaced_cases t (x ∷ xs) i = split (replacement rm x.score) refl i (In-replaced_cases t xs)
    where
      Found : List NodeScore → Type 0
      Found l =
          (s : NodeScore) × In s l × (s.name ≡ t.name) × (replacement rm s.score ≡ some t.score)

      split :
          (r : Option ℤ)
          → replacement rm x.score ≡ r
          → In t (elim r [
            | some v ↦ record { name = x.name; score = v } ∷ replaced_scores rm xs
            | none ↦ replaced_scores rm xs
          ])
          → (In t (replaced_scores rm xs)
              → (s : NodeScore) × In s xs
                × (s.name ≡ t.name)
                × (replacement rm s.score ≡ some t.score))
          → (s : NodeScore) × In s (x ∷ xs)
            × (s.name ≡ t.name)
            × (replacement rm s.score ≡ some t.score)
      split none e j rec = let (s, k, p, q) = rec j in (s, there k, p, q)
      split (some v) e (here p) rec = (x, here refl, ground arith, ground arith)
      split (some v) e (there j) rec = let (s, k, p, q) = rec j in (s, there k, p, q)

  pub In-calculated :
      (s : NodeScore) (scores : List NodeScore)
      → replacement rm s.score ≡ none
      → In s scores
      → In s (calculated_scores rm scores)
  unfolding calculated_scores
  In-calculated s [] e i = elim i [ ]
  In-calculated s (x ∷ xs) e (here p) =
      rw (sym (ap (λ (u : NodeScore). replacement rm u.score) p) ∙ e, calculated_scores) (here p)
  In-calculated s (x ∷ xs) e (there i) = elim (Option-cases (replacement rm x.score)) [
    | inl n ↦ rw (n, calculated_scores) (there (In-calculated s xs e i))
    | inr (w, q) ↦ rw (q, calculated_scores) (In-calculated s xs e i)
  ]

  pub In-calculated_cases :
      (s : NodeScore) (scores : List NodeScore)
      → In s (calculated_scores rm scores)
      → In s scores × (replacement rm s.score ≡ none)
  unfolding calculated_scores
  In-calculated_cases s [] i = elim i [ ]
  In-calculated_cases s (x ∷ xs) i =
      split (replacement rm x.score) refl i (In-calculated_cases s xs)
    where
      split :
          (r : Option ℤ)
          → replacement rm x.score ≡ r
          → In s (elim r [ some v ↦ calculated_scores rm xs | none ↦ x ∷ calculated_scores rm xs ])
          → (In s (calculated_scores rm xs) → In s xs × (replacement rm s.score ≡ none))
          → In s (x ∷ xs) × (replacement rm s.score ≡ none)
      split none e (here p) rec = (here p, ap (λ (u : NodeScore). replacement rm u.score) p ∙ e)
      split none e (there j) rec = (there (rec j).0, (rec j).1)
      split (some v) e j rec = (there (rec j).0, (rec j).1)

module _ (top base highest lowest : ℤ) where
  In-rescale_all :
      (s : NodeScore) (xs : List NodeScore)
      → In s xs
      → In
          (record { name = s.name; score = rescale top base highest lowest s.score })
          (rescale_all top base highest lowest xs)
  unfolding rescale_all
  In-rescale_all s [] i = elim i [ ]
  In-rescale_all s (x ∷ xs) (here p) = here (
      ap
        (λ (u : NodeScore). record {
          name = u.name;
          score = rescale top base highest lowest u.score;
        })
        p)
  In-rescale_all s (x ∷ xs) (there i) = there (In-rescale_all s xs i)

  In-rescale_all_cases :
      (t : NodeScore) (xs : List NodeScore)
      → In t (rescale_all top base highest lowest xs)
      → (s : NodeScore) × In s xs
        × (t ≡ record { name = s.name; score = rescale top base highest lowest s.score })
  unfolding rescale_all
  In-rescale_all_cases t [] i = elim i [ ]
  In-rescale_all_cases t (x ∷ xs) (here p) = (x, here refl, p)
  In-rescale_all_cases t (x ∷ xs) (there i) =
      let (s, j, e) = In-rescale_all_cases t xs i in (s, there j, e)

module _ (top base : ℤ) (rm : ReplaceMap) (scores : List NodeScore) (u : Unambiguous scores) where
  calculated : List NodeScore
  calculated = calculated_scores rm scores

  highest : ℤ
  highest = highest_from min_int64 (calculated_scores rm scores)

  lowest : ℤ
  lowest = lowest_from max_int64 (calculated_scores rm scores)

  abbrev fresh : NodeScore → NodeScore
  fresh = new_score top base highest lowest rm

  rescaled : List NodeScore
  rescaled = rescale_all top base highest lowest (calculated_scores rm scores)

  lookup-scores2 :
      (s : NodeScore)
      → In s scores
      → lookup s.name (insert_all rescaled (insert_all (replaced_scores rm scores) []))
        ≡ some (fresh s)
  unfolding rescaled highest lowest new_score
  lookup-scores2 s i = elim (Option-cases (replacement rm s.score)) [
    | inl n ↦
        rw (n, new_score)
          (insert_all-hit _ rescaled _
            (λ e j p.
              let (s', k, q) = In-rescale_all_cases top base highest lowest e _ j in
              let same =
                u s' s (In-calculated_cases rm s' scores k).0 i
                  (sym (ap (λ (t : NodeScore). t.name) q) ∙ p) in
              q
              ∙ ap
                  (λ (t : NodeScore). record {
                    name = t.name;
                    score = rescale top base highest lowest t.score;
                  })
                  same)
            (inr (In-rescale_all top base highest lowest s _ (In-calculated rm s scores n i))))
    | inr (v, f) ↦
        rw (f, new_score)
          (insert_all-miss s.name rescaled _ (λ e j p.
              let (s', k, q) = In-rescale_all_cases top base highest lowest e _ j in
              let (k', n) = In-calculated_cases rm s' scores k in
              let same = u s' s k' i (sym (ap (λ (t : NodeScore). t.name) q) ∙ p) in
              cc (ap (λ (t : NodeScore). replacement rm t.score) same))
            ∙ insert_all-hit (record { name = s.name; score = v }) (replaced_scores rm scores) []
                (λ e j p.
                  let (s', k, q, r) = In-replaced_cases rm e scores j in
                  let same = u s' s k i (q ∙ p) in
                  ground (arith, ap (λ (t : NodeScore). replacement rm t.score) same))
                (inr (In-replaced rm s scores v f i)))
  ]

  -- If entries of one name are one entry, each node's new score depends on its own old score and on
  -- the extremes alone: a marked score is replaced, the others are rescaled, and the order is kept.
  pub power_consumptions_to_scores-map :
      power_consumptions_to_scores top scores base rm
      ≡ map
          (new_score top base
            (highest_from min_int64 (calculated_scores rm scores))
            (lowest_from max_int64 (calculated_scores rm scores))
            rm)
          scores
  unfolding power_consumptions_to_scores lookup-scores2 lookup_or rescaled highest lowest
  power_consumptions_to_scores-map =
      map-congr_In _ _ scores (λ s i. rw (lookup-scores2 s i, lookup_or) refl)
