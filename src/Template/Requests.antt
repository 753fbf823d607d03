-- ===== src/Template/Requests.antt =====
-- wao-core/internal/controller/node/nodeconfigtemplate_controller.go: Reconcile of a NodeConfigTemplate, and
-- the template that a changed node asks to reconcile.
use waok8s.Prelude.{
  ◌≡◌, refl, sym, ap, ◌∙◌, inl, inr, Bool, true, false, ◌&&◌, List, [], ◌∷◌, ◌++◌, Option, none,
  some, Text, Dict, lookup, text_eq, text_eq_iff, In, here, there, All, ◌⊎◌, keep_if, In-keep_if,
  Bool-cases, arith,
}
use waok8s.Kube.{Node, NamespacedName}
use waok8s.NodeApi.{NodeConfigSpec}
use waok8s.Template.{Engine}
use waok8s.Template.Reconcile.{
  NodeConfigTemplate, config_name, reconcile_node_config, reconcile_node_config_template,
  reconcile_node_config_lem, reconcile_node_config_unread,
}

-- A template object: `selector` is what LabelSelectorAsSelector makes of its selector.
pub record TemplateObject : Type 0 where
  pub nct : NodeConfigTemplate
  pub deleting : Bool
  pub selector : Option (Dict Text → Bool)

-- What `Get` finds.
pub data FoundTemplate : Type 0 where
  not_found not_read : FoundTemplate
  found : TemplateObject → FoundTemplate

pub data TemplateError : Type 0 where
  get_failed bad_selector list_failed : TemplateError

-- `mapFuncNodeToNodeConfigTemplate`: the loop over the templates.
unfoldable pub first_match : Dict Text → List TemplateObject → List NamespacedName
first_match labels [] = []
first_match labels (o ∷ os) = elim o.selector [
  | none ↦ first_match labels os
  | some matches ↦ elim (matches labels) [
    | true ↦ record { namespace = o.nct.namespace; name = o.nct.name } ∷ []
    | false ↦ first_match labels os
  ]
]

unfoldable pub map_func_node_to_node_config_template :
    {F : Type 0} → Option (Node F) → Option (List TemplateObject) → List NamespacedName
unfolding first_match
map_func_node_to_node_config_template none templates = []
map_func_node_to_node_config_template (some node) none = []
map_func_node_to_node_config_template (some node) (some ncts) = first_match node.labels ncts

-- The template does not select these labels, or its selector cannot be read.
abbrev pub PassedOver : Dict Text → TemplateObject → Type 0
PassedOver labels o =
    (o.selector ≡ none)
    ⊎ ((matches : Dict Text → Bool) × (o.selector ≡ some matches) × (matches labels ≡ false))

first_match-skipped :
    (labels : Dict Text) (skipped : List TemplateObject) (o : TemplateObject)
    (others : List TemplateObject) (matches : Dict Text → Bool)
    → All (PassedOver labels) skipped
    → o.selector ≡ some matches
    → matches labels ≡ true
    → first_match labels (skipped ++ o ∷ others)
      ≡ record { namespace = o.nct.namespace; name = o.nct.name } ∷ []
unfolding first_match
first_match-skipped labels [] o others matches h e m =
    rw (e, first_match) (rw (m, first_match) refl)
first_match-skipped labels (p ∷ skipped) o others matches (inl f, h) e m =
    rw (f, first_match) (first_match-skipped labels skipped o others matches h e m)
first_match-skipped labels (p ∷ skipped) o others matches (inr (other, f, g), h) e m =
    rw (f, first_match)
      (rw (g, first_match) (first_match-skipped labels skipped o others matches h e m))

-- The NodeConfig of a node of that name.
abbrev pub HasConfig : Text → Text → Dict NodeConfigSpec → Type 0
HasConfig config name configs =
    (spec : NodeConfigSpec) × (lookup config configs ≡ some spec) × (spec.node_name ≡ name)

module _ {T F : Type 0} (engine : Engine T) (readable writable : Text → Bool) where
  -- `reconcileNodeConfigTemplate`, for all nodes of the cluster, if they can be listed.
  unfoldable pub reconcile_template :
      TemplateObject
      → Option (List (Node F))
      → T × Dict NodeConfigSpec
      → Option TemplateError × (T × Dict NodeConfigSpec)
  unfolding reconcile_node_config_template
  reconcile_template o nodes s = elim o.selector [
    | none ↦ (some bad_selector, s)
    | some matches ↦ elim nodes [
      | none ↦ (some list_failed, s)
      | some all ↦ (
        none,
        reconcile_node_config_template engine readable writable o.nct
            (keep_if (λ (n : Node F). matches n.labels) all) s,
      )
    ]
  ]

  -- `Reconcile`
  unfoldable pub reconcile :
      FoundTemplate
      → Option (List (Node F))
      → T × Dict NodeConfigSpec
      → Option TemplateError × (T × Dict NodeConfigSpec)
  unfolding reconcile_template
  reconcile not_found nodes s = (none, s)
  reconcile not_read nodes s = (some get_failed, s)
  reconcile (found o) nodes s = elim o.deleting [
    | true ↦ (none, s)
    | false ↦ reconcile_template o nodes s
  ]

  config_name_injective :
      (nct : NodeConfigTemplate) (m n : Node F)
      → config_name nct m ≡ config_name nct n
      → m.name ≡ n.name
  config_name_injective nct m n e = cancel nct.name e
    where
      cancel : (p : Text) → p ++ b'-' ∷ m.name ≡ p ++ b'-' ∷ n.name → m.name ≡ n.name
      cancel [] e = ground arith
      cancel (c ∷ p) e = cancel p (ground arith)

  -- A step for any node keeps the NodeConfigs that are there.
  reconcile_node_config-HasConfig :
      (nct : NodeConfigTemplate) (m n : Node F) (s : T × Dict NodeConfigSpec)
      → HasConfig (config_name nct n) n.name s.1
      → HasConfig
          (config_name nct n)
          n.name
          (reconcile_node_config engine readable writable nct m s).1
  reconcile_node_config-HasConfig nct m n s (spec, e, f) =
      elim (Bool-cases (readable (config_name nct m) && writable (config_name nct m))) [
        | inr closed ↦ (
          spec,
          ap (λ (c : Dict NodeConfigSpec). lookup (config_name nct n) c)
                (reconcile_node_config_unread engine readable writable nct m s closed)
              ∙ e,
          f,
        )
        | inl open_ ↦
            let (written, others) =
              reconcile_node_config_lem engine readable writable nct m s (ground (arith, open_))
                (ground (arith, open_)) in
            elim (Bool-cases (text_eq (config_name nct m) (config_name nct n))) [
              | inl same ↦
                  let key : config_name nct m ≡ config_name nct n = (text_eq_iff _ _).0 same in
                  let (new, g, h) = written in
                  (new, rw (sym key) g, h ∙ config_name_injective nct m n key)
              | inr differ ↦ (
                spec,
                others (config_name nct n)
                      (ground (arith, differ, text_eq_iff (config_name nct m) (config_name nct n)))
                    ∙ e,
                f,
              )
            ]
      ]

  reconcile_node_config_template-HasConfig :
      (nct : NodeConfigTemplate) (nodes : List (Node F)) (n : Node F) (s : T × Dict NodeConfigSpec)
      → HasConfig (config_name nct n) n.name s.1
      → HasConfig
          (config_name nct n)
          n.name
          (reconcile_node_config_template engine readable writable nct nodes s).1
  unfolding reconcile_node_config_template
  reconcile_node_config_template-HasConfig nct [] n s h = h
  reconcile_node_config_template-HasConfig nct (m ∷ nodes) n s h =
      reconcile_node_config_template-HasConfig nct nodes n
        (reconcile_node_config engine readable writable nct m s)
        (reconcile_node_config-HasConfig nct m n s h)

  selected-HasConfig :
      (nct : NodeConfigTemplate) (nodes : List (Node F)) (n : Node F) (s : T × Dict NodeConfigSpec)
      → In n nodes
      → readable (config_name nct n) ≡ true
      → writable (config_name nct n) ≡ true
      → HasConfig
          (config_name nct n)
          n.name
          (reconcile_node_config_template engine readable writable nct nodes s).1
  unfolding reconcile_node_config_template
  selected-HasConfig nct [] n s i r w = elim i [ ]
  selected-HasConfig nct (m ∷ nodes) n s (here e) r w =
      reconcile_node_config_template-HasConfig nct nodes n
        (reconcile_node_config engine readable writable nct m s)
        (rw (sym e) (reconcile_node_config_lem engine readable writable nct n s r w).0)
  selected-HasConfig nct (m ∷ nodes) n s (there i) r w =
      selected-HasConfig nct nodes n (reconcile_node_config engine readable writable nct m s) i r w

  -- If some template selects a changed node, the node asks for exactly one: the first of the list whose
  -- selector can be read and matches it. Once that template, not being deleted, is reconciled, if the nodes
  -- can be listed, the node among them, and its NodeConfig read and written, the node has a NodeConfig that
  -- names it.
  pub requested-HasConfig :
      (skipped : List TemplateObject) (o : TemplateObject) (matches : Dict Text → Bool)
      (others : List TemplateObject) (n : Node F) (nodes : List (Node F))
      (s : T × Dict NodeConfigSpec)
      → All (PassedOver n.labels) skipped
      → o.selector ≡ some matches
      → matches n.labels ≡ true
      → o.deleting ≡ false
      → In n nodes
      → readable (config_name o.nct n) ≡ true
      → writable (config_name o.nct n) ≡ true
      → (map_func_node_to_node_config_template (some n) (some (skipped ++ o ∷ others))
          ≡ record { namespace = o.nct.namespace; name = o.nct.name } ∷ [])
        × ((reconcile (found o) (some nodes) s).0 ≡ none)
        × HasConfig (config_name o.nct n) n.name (reconcile (found o) (some nodes) s).1.1
  unfolding reconcile reconcile_template map_func_node_to_node_config_template
  requested-HasConfig skipped o matches others n nodes s passed e m d i r w = (
    first_match-skipped n.labels skipped o others matches passed e m,
    rw (d, reconcile) (rw (e, reconcile_template) refl),
    rw (d, reconcile)
        (rw (e, reconcile_template)
          (selected-HasConfig o.nct (keep_if (λ (k : Node F). matches k.labels) nodes) n s
            (In-keep_if (λ (k : Node F). matches k.labels) nodes i m) r w)),
  )
