-- ===== src/Client/Keys.antt =====
-- Texts joined by a separator that the left part does not hold: the parts can be read back.
use waok8s.Prelude.{
  ℕ, ◌≡◌, refl, ◌≢◌, [], ◌∷◌, ◌++◌, Text, All, arith, split, split_after, sym, ap, ◌∙◌, true, false,
  ◌==◌,
}
use mathlib.Core.List.{append-nil, append_assoc}

abbrev pub Lacks : ℕ → Text → Type 0
Lacks sep t = All (λ c. c ≢ sep) t

pub append-sep_injective :
    (sep : ℕ) (s t u v : Text)
    → Lacks sep s
    → Lacks sep t
    → s ++ sep ∷ u ≡ t ++ sep ∷ v
    → (s ≡ t) × (u ≡ v)
append-sep_injective sep [] [] u v h k e = (refl, ground arith)
append-sep_injective sep [] (b ∷ t) u v h k e = absurd (ground arith)
append-sep_injective sep (a ∷ s) [] u v h k e = absurd (ground arith)
append-sep_injective sep (a ∷ s) (b ∷ t) u v h k e =
    let (p, q) = append-sep_injective sep s t u v h.1 k.1 (ground arith) in (ground arith, q)

pub Lacks-append : (sep : ℕ) (s t : Text) → Lacks sep s → Lacks sep t → Lacks sep (s ++ t)
Lacks-append sep [] t h k = k
Lacks-append sep (c ∷ s) t (n, h) k = (n, Lacks-append sep s t h k)

-- `strings.Split` finds the parts again.
pub split_after-last :
    (sep : ℕ) (word s : Text) → Lacks sep s → split_after sep word s ≡ (word ++ s) ∷ []
unfolding split_after
split_after-last sep word [] h = ap (λ w. w ∷ []) (sym (append-nil word))
split_after-last sep word (c ∷ s) (n, h) =
    let other : (c == sep) ≡ false = ground arith in
    rw (other, split_after)
      (split_after-last sep (word ++ c ∷ []) s h ∙ ap (λ w. w ∷ []) (append_assoc word (c ∷ []) s))

pub split_after-first :
    (sep : ℕ) (word s t : Text)
    → Lacks sep s
    → split_after sep word (s ++ sep ∷ t) ≡ (word ++ s) ∷ split sep t
unfolding split_after split
split_after-first sep word [] t h =
    let same : (sep == sep) ≡ true = ground arith in
    rw (same, split_after) (ap (λ w. w ∷ split sep t) (sym (append-nil word)))
split_after-first sep word (c ∷ s) t (n, h) =
    let other : (c == sep) ≡ false = ground arith in
    rw (other, split_after)
      (split_after-first sep (word ++ c ∷ []) s t h
        ∙ ap (λ w. w ∷ split sep t) (append_assoc word (c ∷ []) s))
