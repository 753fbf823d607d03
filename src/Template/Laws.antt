-- ===== src/Template/Laws.antt =====
-- What templates do to the fields of a NodeConfig.
use waok8s.Prelude.{
  ◌≡◌, refl, ap, ◌∙◌, ◌⊎◌, inl, inr, [], ◌∷◌, ◌++◌, Option, none, some, Text, split, arith,
}
use waok8s.Client.Keys.{Lacks, split_after-last, split_after-first}
use waok8s.Kube.{Node}
use waok8s.NodeApi.{EndpointTerm}
use waok8s.Template.{
  TemplateData, Engine, internal_address, with_octets, new_template_data_from_node,
  template_parse_string, rendered, rendered_secret, parsed_term, template_parse_endpoint_term,
}

-- The octets of the template values are the four parts of the node's first internal address, if it has
-- four parts without dots, joined by dots.
pub new_template_data_octets :
    {F : Type 0} (node : Node F) (a b c d : Text)
    → Lacks b'.' a
    → Lacks b'.' b
    → Lacks b'.' c
    → Lacks b'.' d
    → internal_address node.addresses ≡ a ++ b'.' ∷ (b ++ b'.' ∷ (c ++ b'.' ∷ d))
    → (new_template_data_from_node node).ipv4 ≡ record {
      address = internal_address node.addresses;
      octet1 = a;
      octet2 = b;
      octet3 = c;
      octet4 = d;
    }
unfolding new_template_data_from_node with_octets split
new_template_data_octets node a b c d la lb lc ld e =
    ap (with_octets (internal_address node.addresses)) four
  where
    four : split b'.' (internal_address node.addresses) ≡ a ∷ b ∷ c ∷ d ∷ []
    four =
        ap (split b'.') e
        ∙ split_after-first b'.' [] a (b ++ b'.' ∷ (c ++ b'.' ∷ d)) la
        ∙ ap (λ l. a ∷ l) (split_after-first b'.' [] b (c ++ b'.' ∷ d) lb)
        ∙ ap (λ l. a ∷ b ∷ l) (split_after-first b'.' [] c d lc)
        ∙ ap (λ l. a ∷ b ∷ c ∷ l) (split_after-last b'.' [] d ld)

module _ {T : Type 0} (engine : Engine T) (values : TemplateData) where
  -- A text that is no template: whatever was parsed before, its output is the text itself.
  abbrev pub IsPlain : Text → Type 0
  IsPlain s = (t : T) → (u : T) × (engine.parse t s ≡ some u) × (engine.execute u values ≡ some s)

  rendered-output :
      (t : T) (s : Text) (u : T) (out : Text)
      → engine.parse t s ≡ some u
      → engine.execute u values ≡ some out
      → rendered engine t s values ≡ (out, u)
  unfolding rendered template_parse_string
  rendered-output t s u out p e = rw (p, rendered, template_parse_string) (rw (e, rendered) refl)

  rendered-plain : (t : T) (s : Text) → IsPlain s → (rendered engine t s values).0 ≡ s
  rendered-plain t s h =
      let (u, p, e) = h t in ap (λ (r : Text × T). r.0) (rendered-output t s u s p e)

  abbrev pub PlainSecret : Option Text → Type 0
  PlainSecret o = (o ≡ none) ⊎ ((s : Text) × (o ≡ some s) × IsPlain s)

  rendered_secret-plain :
      (t : T) (o : Option Text) → PlainSecret o → (rendered_secret engine t o values).0 ≡ o
  unfolding rendered_secret
  rendered_secret-plain t none h = refl
  rendered_secret-plain t (some s) (inl e) = absurd (ground arith)
  rendered_secret-plain t (some s) (inr (r, e, h)) =
      let same : s ≡ r = ground arith in ap some (rendered-plain t s (rw same h))

  -- Terms whose strings are plain are kept, whatever was parsed before.
  pub template_parse_endpoint_term_plain :
      (t : T) (ep : EndpointTerm)
      → IsPlain ep.type_
      → IsPlain ep.endpoint
      → PlainSecret ep.basic_auth_secret
      → (template_parse_endpoint_term engine t (some ep) values).0 ≡ some ep
  unfolding template_parse_endpoint_term parsed_term
  template_parse_endpoint_term_plain t ep a b c =
      let t1 = (rendered engine t ep.type_ values).1 in
      let t2 = (rendered engine t1 ep.endpoint values).1 in
      let p = rendered-plain t ep.type_ a in
      let q = rendered-plain t1 ep.endpoint b in
      let r = rendered_secret-plain t2 ep.basic_auth_secret c in cc (p, q, r)

  -- If a blank text leaves the template as it was (as text/template says), then a term with the
  -- blank endpoint gets the output of its type for an endpoint.
  pub template_parse_endpoint_term_blank :
      (t u : T) (ep : EndpointTerm) (out : Text)
      → ((w : T) → engine.parse w [] ≡ some w)
      → ep.endpoint ≡ []
      → engine.parse t ep.type_ ≡ some u
      → engine.execute u values ≡ some out
      → (ep' : EndpointTerm) × ((template_parse_endpoint_term engine t (some ep) values).0
          ≡ some ep')
        × (ep'.type_ ≡ out)
        × (ep'.endpoint ≡ out)
  unfolding template_parse_endpoint_term parsed_term
  template_parse_endpoint_term_blank t u ep out blank e p q =
      let first = rendered-output t ep.type_ u out p q in
      (
        _,
        refl,
        ap (λ (r : Text × T). r.0) first,
        ap (λ (w : T). (rendered engine w ep.endpoint values).0) (ap (λ (r : Text × T). r.1) first)
            ∙ ap (λ s. (rendered engine u s values).0) e
            ∙ ap (λ (r : Text × T). r.0) (rendered-output u [] u out (blank u) q),
      )
