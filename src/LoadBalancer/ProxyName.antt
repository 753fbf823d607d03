-- ===== src/LoadBalancer/ProxyName.antt =====
-- wao-loadbalancer/cmd/kube-proxy/app: what the project has added to server.go and server_linux.go, so
-- that the load balancer can run beside the default service proxy. The labels of k8s.io/apimachinery
-- are a parameter.
mod Tests
use waok8s.Prelude.{
  ◌≡◌, ◌≢◌, ◌↔◌, inl, inr, refl, sym, ap, ◌∙◌, Bool, true, false, not, ◌&&◌, List, [], ◌∷◌, Option,
  none, some, Text, Dict, lit, lookup, lookup_or, has_key, text_eq, text_eq_iff, if◌then◌else◌,
  arith, Option-cases, Bool-cases,
}

-- `apis.LabelServiceProxyName`
abbrev pub label_service_proxy_name : Text
label_service_proxy_name = lit "service.kubernetes.io/service-proxy-name"

-- `selection.Operator`, the two that are used.
pub data Operator : Type 0 where
  does_not_exist equals : Operator

-- `labels`: requirements, which may be refused, and selectors of two of them; `is_headless_service` is
-- the label of that name in `v1`.
pub record Labels (R S : Type 0) : Type 0 where
  pub is_headless_service : Text
  pub new_requirement : Text → Operator → List Text → Option R
  pub matches : R → Dict Text → Bool
  pub add : R → R → S
  pub selects : S → Dict Text → Bool

-- What the package documents.
pub record IsDocumented {R S : Type 0} (lib : Labels R S) : Type 0 where
  pub absent :
      (key : Text) (r : R) (labels : Dict Text)
      → lib.new_requirement key does_not_exist [] ≡ some r
      → lib.matches r labels ≡ not (has_key key labels)
  pub equal :
      (key value : Text) (r : R) (labels : Dict Text)
      → lib.new_requirement key equals (value ∷ []) ≡ some r
      → lib.matches r labels
        ≡ (elim (lookup key labels) [ none ↦ false | some v ↦ text_eq v value ])
  pub both :
      (a b : R) (labels : Dict Text)
      → lib.selects (lib.add a b) labels ≡ lib.matches a labels && lib.matches b labels

module _ {R S : Type 0} (lib : Labels R S) where
  -- `proxyNameReq`, from `WAOProxyName`.
  unfoldable pub proxy_name_requirement : Text → Option R
  unfolding text_eq
  proxy_name_requirement wao_proxy_name =
      if text_eq wao_proxy_name []
      then lib.new_requirement label_service_proxy_name does_not_exist []
      else lib.new_requirement label_service_proxy_name equals (wao_proxy_name ∷ [])

  -- `labelSelector`, which picks the services and the endpoint slices that the proxy sees; `none` is an
  -- error.
  unfoldable pub label_selector : Text → Option S
  unfolding proxy_name_requirement
  label_selector wao_proxy_name = elim (proxy_name_requirement wao_proxy_name) [
    | none ↦ none
    | some proxy_name_req ↦ elim (lib.new_requirement lib.is_headless_service does_not_exist []) [
      | none ↦ none
      | some no_headless_endpoints ↦ some (lib.add proxy_name_req no_headless_endpoints)
    ]
  ]

-- The addresses of `KubeProxyConfiguration` that `platformApplyDefaults` sets.
pub record Addresses : Type 0 where
  pub healthz_bind_address : Text
  pub metrics_bind_address : Text

unfoldable pub apply_proxy_name : Text → Addresses → Addresses
unfolding text_eq
apply_proxy_name wao_proxy_name config =
    if text_eq wao_proxy_name [] then config else record config {
      healthz_bind_address = lit "0.0.0.0:10356";
      metrics_bind_address = lit "0.0.0.0:10349";
    }

both-true : (a h : Bool) (P : Type 0) → ((a ≡ true) ↔ P) → (a && not h ≡ true) ↔ ((h ≡ false) × P)
both-true true true P r = (λ e. cc, λ p. cc (p.0))
both-true true false P r = (λ e. (refl, r.0 refl), λ p. refl)
both-true false h P r = (λ e. cc, λ p. cc (r.1 p.1))

module _ {R S : Type 0} (lib : Labels R S) (docs : IsDocumented lib) where
  requirement-matches :
      (name : Text) (r : R) (labels : Dict Text)
      → proxy_name_requirement lib name ≡ some r
      → lookup label_service_proxy_name labels ≢ some []
      → (lib.matches r labels ≡ true) ↔ (name ≡ lookup_or [] label_service_proxy_name labels)
  unfolding proxy_name_requirement lookup_or has_key
  requirement-matches name r labels e n = elim (Bool-cases (text_eq name [])) [
    | inl default ↦
        let m =
          docs.absent label_service_proxy_name r labels
            (rw (default, proxy_name_requirement) at e) in
        ground (arith, m, default, n, text_eq_iff name [])
    | inr named ↦
        let m =
          docs.equal label_service_proxy_name name r labels
            (rw (named, proxy_name_requirement) at e) in
        elim (Option-cases (lookup label_service_proxy_name labels)) [
          | inl missing ↦ ground (arith, m, named, missing, text_eq_iff name [])
          | inr (v, found) ↦
              ground (arith, m, named, found, n, text_eq_iff name [], text_eq_iff v name)
        ]
  ]

  -- A proxy sees a service exactly if the service is not labelled as headless and its label for the
  -- service proxy, read as empty where it is missing, is the name of the proxy. So no service is seen by
  -- two proxies of different names. The label is not there with an empty value.
  pub label_selector-selects :
      (name : Text) (s : S) (labels : Dict Text)
      → label_selector lib name ≡ some s
      → lookup label_service_proxy_name labels ≢ some []
      → (lib.selects s labels ≡ true) ↔ (
          (has_key lib.is_headless_service labels ≡ false)
          × (name ≡ lookup_or [] label_service_proxy_name labels))
  unfolding label_selector
  label_selector-selects name s labels e n = elim (Option-cases (proxy_name_requirement lib name)) [
    | inl refused ↦ absurd (ground (arith, refused, e))
    | inr (req, p) ↦
        elim (Option-cases (lib.new_requirement lib.is_headless_service does_not_exist [])) [
          | inl refused ↦ absurd (ground (arith, p, refused, e))
          | inr (headless, q) ↦
              let made : lib.add req headless ≡ s = ground (arith, p, q, e) in
              let r = requirement-matches name req labels p n in
              let h = docs.absent lib.is_headless_service headless labels q in
              let b = docs.both req headless labels in rw (← made) (rw (b, h) (both-true _ _ _ r))
        ]
  ]
