-- ===== src/Template/Reconcile.antt =====
-- wao-core/internal/controller/node/nodeconfigtemplate_controller.go: the NodeConfigs that a
-- NodeConfigTemplate yields. The API server is a parameter: which NodeConfigs can be read and written.
use waok8s.Prelude.{
  ◌≡◌, refl, ◌≢◌, Bool, true, false, ◌&&◌, Bool-cases, inl, inr, arith, List, [], ◌∷◌, ◌++◌, some,
  Text, Dict, lookup, insert, lookup-insert_self, lookup-insert_ne, if◌then◌else◌,
}
use waok8s.Kube.{Node}
use waok8s.NodeApi.{NodeConfigSpec}
use waok8s.Template.{Engine, new_template_data_from_node, template_parse_node_config}

-- `NodeConfigTemplate`, less its selector: the nodes that it selects are an argument.
pub record NodeConfigTemplate : Type 0 where
  pub namespace : Text
  pub name : Text
  pub template : NodeConfigSpec

-- `ncObj.Name`
abbrev pub config_name : {F : Type 0} → NodeConfigTemplate → Node F → Text
config_name nct node = nct.name ++ b'-' ∷ node.name

module _ {T F : Type 0} (engine : Engine T) (readable writable : Text → Bool) where
  -- `reconcileNodeConfig`: the template and the NodeConfigs of the namespace, by name.
  unfoldable pub reconcile_node_config :
      NodeConfigTemplate → Node F → T × Dict NodeConfigSpec → T × Dict NodeConfigSpec
  unfolding template_parse_node_config new_template_data_from_node insert
  reconcile_node_config nct node (tmpl, configs) =
      let name = config_name nct node in
      let (spec, t) =
        template_parse_node_config engine tmpl (record nct.template { node_name = node.name })
          (new_template_data_from_node node) in
      if readable name
      then (t, if writable name then insert name spec configs else configs)
      else (tmpl, configs)

  -- The loop of `reconcileNodeConfigTemplate`: a node that fails is passed over.
  unfoldable pub reconcile_node_config_template :
      NodeConfigTemplate → List (Node F) → T × Dict NodeConfigSpec → T × Dict NodeConfigSpec
  unfolding reconcile_node_config
  reconcile_node_config_template nct [] s = s
  reconcile_node_config_template nct (node ∷ nodes) s =
      reconcile_node_config_template nct nodes (reconcile_node_config nct node s)

  -- A node whose NodeConfig can be read and written gets one that names the node, and the other
  -- NodeConfigs stay as they were.
  pub reconcile_node_config_lem :
      (nct : NodeConfigTemplate) (node : Node F) (s : T × Dict NodeConfigSpec)
      → readable (config_name nct node) ≡ true
      → writable (config_name nct node) ≡ true
      → ((spec : NodeConfigSpec) × (lookup
              (config_name nct node)
              (reconcile_node_config nct node s).1
            ≡ some spec)
          × (spec.node_name ≡ node.name))
        × ((k : Text)
            → config_name nct node ≢ k
            → lookup k (reconcile_node_config nct node s).1 ≡ lookup k s.1)
  unfolding reconcile_node_config template_parse_node_config
  reconcile_node_config_lem nct node (tmpl, configs) r w =
      let spec =
        (template_parse_node_config engine tmpl (record nct.template { node_name = node.name })
          (new_template_data_from_node node)).0 in
      rw (r, reconcile_node_config)
        (rw (w, reconcile_node_config)
          (
            (spec, lookup-insert_self (config_name nct node) spec configs, refl),
            λ k h. lookup-insert_ne (config_name nct node) k spec configs h,
          ))

  -- A node whose NodeConfig cannot be read or written changes no NodeConfig.
  pub reconcile_node_config_unread :
      (nct : NodeConfigTemplate) (node : Node F) (s : T × Dict NodeConfigSpec)
      → (readable (config_name nct node) && writable (config_name nct node)) ≡ false
      → (reconcile_node_config nct node s).1 ≡ s.1
  unfolding reconcile_node_config
  reconcile_node_config_unread nct node (tmpl, configs) e =
      elim (Bool-cases (readable (config_name nct node))) [
        | inl r ↦
            let w : writable (config_name nct node) ≡ false = ground (arith, e, r) in
            rw (r, reconcile_node_config) (rw (w, reconcile_node_config) refl)
        | inr r ↦ rw (r, reconcile_node_config) refl
      ]
