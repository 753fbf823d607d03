-- ===== src/LoadBalancer/ProxyName/Tests.antt =====
-- The selector, with a small version of the labels package.
use waok8s.Prelude.{
  ◌≡◌, ◌≢◌, ◌↔◌, refl, Bool, true, false, not, ◌&&◌, List, [], ◌∷◌, Option, none, some, Text, Dict,
  lit, lookup, lookup_or, has_key, text_eq, arith,
}
use waok8s.LoadBalancer.ProxyName.{
  Operator, does_not_exist, equals, Labels, IsDocumented, label_service_proxy_name, label_selector,
  label_selector-selects,
}

abbrev small_matches : Text × (Operator × Text) → Dict Text → Bool
small_matches (key, (does_not_exist, value)) labels = not (has_key key labels)
small_matches (key, (equals, value)) labels = elim (lookup key labels) [
  | none ↦ false
  | some v ↦ text_eq v value
]

abbrev small_requirement : Text → Operator → List Text → Option (Text × (Operator × Text))
small_requirement key does_not_exist values = some (key, (does_not_exist, []))
small_requirement key equals [] = none
small_requirement key equals (value ∷ values) = some (key, (equals, value))

abbrev SmallRequirement : Type 0
SmallRequirement = Text × (Operator × Text)

abbrev small : Labels SmallRequirement (SmallRequirement × SmallRequirement)
small = record {
  is_headless_service = lit "service.kubernetes.io/headless";
  new_requirement = small_requirement;
  matches = small_matches;
  add = λ a b. (a, b);
  selects = λ s labels. small_matches s.0 labels && small_matches s.1 labels;
}

some_inj : {x y : SmallRequirement} → ◌≡◌ {A = Option SmallRequirement} (some x) (some y) → x ≡ y
some_inj e = cc

small-IsDocumented : IsDocumented small
small-IsDocumented = record {
  absent = λ key r labels e. rw (← some_inj e) refl;
  equal = λ key value r labels e. rw (← some_inj e) refl;
  both = λ a b labels. refl;
}

abbrev wao_labels : Dict Text
wao_labels = (label_service_proxy_name, lit "wao") ∷ []

abbrev wao_selector : SmallRequirement × SmallRequirement
wao_selector = (
  (label_service_proxy_name, (equals, lit "wao")),
  (lit "service.kubernetes.io/headless", (does_not_exist, [])),
)

wao_selector_run : label_selector small (lit "wao") ≡ some wao_selector
unfolding label_selector
wao_selector_run = refl

wao_is_named : lookup label_service_proxy_name wao_labels ≢ some []
unfolding lookup text_eq
wao_is_named e = ground (arith, e)

label_selector-selects_example : (small.selects wao_selector wao_labels ≡ true) ↔ (
    (has_key small.is_headless_service wao_labels ≡ false)
    × (lit "wao" ≡ lookup_or [] label_service_proxy_name wao_labels))
label_selector-selects_example =
    label_selector-selects small small-IsDocumented (lit "wao") wao_selector wao_labels
      wao_selector_run wao_is_named
