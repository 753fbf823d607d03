-- ===== src/Prelude/Lists.antt =====
-- Lists measured by native numbers, and predicates on lists.
use Prim.Native.Nat.{ℕ, suc, ◌+◌}
use mathlib.Core.Path.{◌≡◌, refl, ap, ap₂}
use mathlib.Core.Logic.{◌⊎◌, inl, inr}
use mathlib.Core.List.{List, [], ◌∷◌, ◌++◌, map}
use mathlib.Core.Bool.{Bool, true, false, ◌||◌}
use native.Mathlib.Omega.{arith}

module _ {ℓ} {A : Type ℓ} where
  abbrev pub length : List A → ℕ
  length [] = 0
  length (x ∷ xs) = suc (length xs)

  pub length-append : (xs ys : List A) → length (xs ++ ys) ≡ length xs + length ys
  length-append [] ys = omega arith
  length-append (x ∷ xs) ys = omega (arith, length-append xs ys)

  -- Membership that keeps the position, and can be matched.
  pub data In (a : A) : List A → Type ℓ where
    here : {x : A} {xs : List A} → a ≡ x → In a (x ∷ xs)
    there : {x : A} {xs : List A} → In a xs → In a (x ∷ xs)

  -- Each entry satisfies the predicate.
  abbrev pub All {κ} : (A → Type κ) → List A → Type κ
  All P [] = Unit
  All P (x ∷ xs) = P x × All P xs

  abbrev pub any : (A → Bool) → List A → Bool
  any p [] = false
  any p (x ∷ xs) = p x || any p xs

  -- The entries that pass the test, in order.
  abbrev pub keep_if : (A → Bool) → List A → List A
  keep_if p [] = []
  keep_if p (x ∷ xs) = elim (p x) [ true ↦ x ∷ keep_if p xs | false ↦ keep_if p xs ]

module _ {ℓ} {A : Type ℓ} where
  pub In-append_left : {a : A} (xs ys : List A) → In a xs → In a (xs ++ ys)
  In-append_left [] ys m = elim m [ ]
  In-append_left (x ∷ xs) ys (here e) = here e
  In-append_left (x ∷ xs) ys (there m) = there (In-append_left xs ys m)

  pub In-append_right : {a : A} (xs ys : List A) → In a ys → In a (xs ++ ys)
  In-append_right [] ys m = m
  In-append_right (x ∷ xs) ys m = there (In-append_right xs ys m)

  pub In-append_cases : {a : A} (xs ys : List A) → In a (xs ++ ys) → In a xs ⊎ In a ys
  In-append_cases [] ys m = inr m
  In-append_cases (x ∷ xs) ys (here e) = inl (here e)
  In-append_cases (x ∷ xs) ys (there m) = elim (In-append_cases xs ys m) [
    | inl l ↦ inl (there l)
    | inr r ↦ inr r
  ]

  pub In-map {κ} : {B : Type κ} (f : A → B) {a : A} (xs : List A) → In a xs → In (f a) (map f xs)
  In-map f [] m = elim m [ ]
  In-map f (x ∷ xs) (here e) = here (ap f e)
  In-map f (x ∷ xs) (there m) = there (In-map f xs m)

  pub In-map_cases {κ} :
      {B : Type κ} (f : A → B) {b : B} (xs : List A)
      → In b (map f xs)
      → (a : A) × In a xs × (b ≡ f a)
  In-map_cases f [] m = elim m [ ]
  In-map_cases f (x ∷ xs) (here e) = (x, here refl, e)
  In-map_cases f (x ∷ xs) (there m) = let (a, i, e) = In-map_cases f xs m in (a, there i, e)

  pub All-In {κ} : (P : A → Type κ) {a : A} (xs : List A) → All P xs → In a xs → P a
  All-In P [] h m = elim m [ ]
  All-In P (x ∷ xs) h (here e) = rw e h.0
  All-In P (x ∷ xs) h (there m) = All-In P xs h.1 m

  pub All-of_In {κ} : (P : A → Type κ) (xs : List A) → ((a : A) → In a xs → P a) → All P xs
  All-of_In P [] h = tt
  All-of_In P (x ∷ xs) h = (h x (here refl), All-of_In P xs (λ a m. h a (there m)))

  pub In-keep_if : (p : A → Bool) {a : A} (xs : List A) → In a xs → p a ≡ true → In a (keep_if p xs)
  In-keep_if p [] m e = elim m [ ]
  In-keep_if p {a} (x ∷ xs) (here q) e = In-keep_head (p x) (rw (← q) e)
    where
      In-keep_head :
          (b : Bool) → b ≡ true → In a (elim b [ true ↦ x ∷ keep_if p xs | false ↦ keep_if p xs ])
      In-keep_head true _ = here q
      In-keep_head false f = cc
  In-keep_if p {a} (x ∷ xs) (there m) e = In-keep_tail (p x) (In-keep_if p xs m e)
    where
      In-keep_tail :
          (b : Bool)
          → In a (keep_if p xs)
          → In a (elim b [ true ↦ x ∷ keep_if p xs | false ↦ keep_if p xs ])
      In-keep_tail true i = there i
      In-keep_tail false i = i

  pub In-keep_if_cases :
      (p : A → Bool) {a : A} (xs : List A) → In a (keep_if p xs) → In a xs × (p a ≡ true)
  In-keep_if_cases p [] m = elim m [ ]
  In-keep_if_cases p {a} (x ∷ xs) m = split (p x) refl m (In-keep_if_cases p xs)
    where
      split :
          (b : Bool)
          → p x ≡ b
          → In a (elim b [ true ↦ x ∷ keep_if p xs | false ↦ keep_if p xs ])
          → (In a (keep_if p xs) → In a xs × (p a ≡ true))
          → In a (x ∷ xs) × (p a ≡ true)
      split true e (here q) rec = (here q, rw q e)
      split true e (there i) rec = (there (rec i).0, (rec i).1)
      split false e i rec = (there (rec i).0, (rec i).1)

  pub map-congr_In {κ} :
      {B : Type κ} (f g : A → B) (xs : List A)
      → ((a : A) → In a xs → f a ≡ g a)
      → map f xs ≡ map g xs
  map-congr_In f g [] h = refl
  map-congr_In f g (x ∷ xs) h =
      ap₂ ◌∷◌ (h x (here refl)) (map-congr_In f g xs (λ a i. h a (there i)))
