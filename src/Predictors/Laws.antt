-- ===== src/Predictors/Laws.antt =====
-- pkg/predictor: what the Redfish provider names is what the predictor asks.
use waok8s.Prelude.{
  inr, inl, Option-cases, Result-cases, ◌≡◌, ◌↔◌, ◌||◌, refl, ◌∙◌, true, false, List, [], ◌∷◌,
  Option, none, some, Result, ok, err, Text, Dict, lit, text_eq, split, ℕ, arith,
}
use waok8s.Client.Keys.{Lacks}
use waok8s.NodeApi.{EndpointTerm, type_v2_inference_protocol}
use waok8s.Agents.Http.{Net, RequestEditorFn, is_empty}
use waok8s.Predictors.V2.{PowerConsumptionPredictor, endpoint}
use waok8s.Predictors.Redfish.{
  get_system_id, ModelEntry, MachineLearningModel, EndpointProvider, ProviderError, returned,
  panicked, get_models, term_of_model, get, type_power_consumption, type_response_time,
}
use waok8s.Predictors.FromNodeConfig.{
  v2_predictor, scan_segments, editors, new_power_consumption_predictor,
}
use waok8s.Predictors.Scan.{base_url, model_url, scan-model_url, scan-model_url_no_version}

-- What the constructor makes of a term whose URL it can parse and scan.
new_power_consumption_predictor-scanned :
    {F : Type 0} (fake_watt : F) (parse_url : Text → Option (Text × Text))
    (secrets : Text → Text → Option (Dict Text)) (namespace url scheme host name version : Text)
    → parse_url url ≡ some (scheme, host)
    → scan_segments (split b'/' url) [] [] ≡ (name, version)
    → is_empty name ≡ false
    → (p : PowerConsumptionPredictor) × (new_power_consumption_predictor fake_watt parse_url secrets
          namespace
          (record {
            type_ = type_v2_inference_protocol;
            endpoint = url;
            basic_auth_secret = none;
            fetch_interval = none;
          })
        ≡ ok (v2_predictor p))
      × (p.address ≡ base_url scheme host)
      × (p.model_name ≡ name)
      × (p.model_version ≡ version)
unfolding new_power_consumption_predictor text_eq
new_power_consumption_predictor-scanned fake_watt parse_url secrets namespace url scheme host name
      version e s n =
    (
      record {
        address = base_url scheme host;
        model_name = name;
        model_version = version;
        editor_fns = editors [] [];
      },
      rw (e, new_power_consumption_predictor)
          (rw (s, new_power_consumption_predictor)
            (rw (n, new_power_consumption_predictor) (rw s refl))),
      refl,
      refl,
      refl,
    )

endpoint-version :
    (join_path : Text → List Text → Option Text) (p : PowerConsumptionPredictor)
    → is_empty p.model_version ≡ false
    → endpoint join_path p
      ≡ join_path p.address
          (lit "v2/models" ∷ p.model_name ∷ lit "versions" ∷ p.model_version ∷ lit "infer" ∷ [])
unfolding endpoint
endpoint-version join_path p e = rw (e, endpoint) refl

-- The model that a Redfish server names, as a provider reads it.
abbrev pub named_model : Text → Text → Text → Text → Option ModelEntry
named_model scheme host name version = some (record {
  type_ = some type_v2_inference_protocol;
  url = some (base_url scheme host);
  name = some name;
  version = some version;
})

module _ {F Body : Type 0} (net : Net Body) (decode_members : Body → Option (List Text))
    (get_model_with_response : Text
      → Text
      → List RequestEditorFn
      → Option (ℕ × Option MachineLearningModel))
    (fake_watt : F) (parse_url : Text → Option (Text × Text))
    (secrets : Text → Text → Option (Dict Text)) where
  get-named_model :
      (prov : EndpointProvider) (m : MachineLearningModel) (scheme host name version url : Text)
      → get_models net decode_members get_model_with_response prov ≡ ok (some m)
      → m.power_consumption_model ≡ named_model scheme host name version
      → net.join_path
          (base_url scheme host)
          (lit "v2/models" ∷ name ∷ lit "versions" ∷ version ∷ lit "infer" ∷ [])
        ≡ some url
      → get net decode_members get_model_with_response prov type_power_consumption
        ≡ returned (
            ok (record {
              type_ = type_v2_inference_protocol;
              endpoint = url;
              basic_auth_secret = none;
              fetch_interval = none;
            }))
  unfolding get term_of_model text_eq
  get-named_model prov m scheme host name version url e f g =
      rw (e, get) (rw (f, get) (rw (g, get, term_of_model) refl))

  -- A predictor that is made for the endpoint that a provider names asks this very endpoint: for a model
  -- of the v2 protocol whose address, name and version hold no slash, whose name and version are not
  -- empty, whose name is not `models` and whose version is not `models` or `versions`, if JoinPath joins
  -- these parts by slashes and Parse reads the scheme and the host back.
  pub predictor-provider :
      (namespace : Text) (prov : EndpointProvider) (m : MachineLearningModel)
      (scheme host name version : Text)
      → get_models net decode_members get_model_with_response prov ≡ ok (some m)
      → m.power_consumption_model ≡ named_model scheme host name version
      → Lacks b'/' scheme
      → Lacks b'/' host
      → Lacks b'/' name
      → Lacks b'/' version
      → is_empty name ≡ false
      → is_empty version ≡ false
      → text_eq name (lit "models") ≡ false
      → text_eq version (lit "models") ≡ false
      → text_eq version (lit "versions") ≡ false
      → net.join_path
          (base_url scheme host)
          (lit "v2/models" ∷ name ∷ lit "versions" ∷ version ∷ lit "infer" ∷ [])
        ≡ some (model_url scheme host name (version ∷ lit "infer" ∷ []))
      → parse_url (model_url scheme host name (version ∷ lit "infer" ∷ [])) ≡ some (scheme, host)
      → (term : EndpointTerm) × (p : PowerConsumptionPredictor) × (get net decode_members
            get_model_with_response prov type_power_consumption
          ≡ returned (ok term))
        × (new_power_consumption_predictor fake_watt parse_url secrets namespace term
            ≡ ok (v2_predictor p))
        × (p.model_name ≡ name)
        × (p.model_version ≡ version)
        × (endpoint net.join_path p ≡ some term.endpoint)
  predictor-provider namespace prov m scheme host name version e f ls lh ln lv n v a b c j u =
      let url = model_url scheme host name (version ∷ lit "infer" ∷ []) in
      let scanned = scan-model_url scheme host name version ls lh ln lv a b c in
      let (p, made, at, pn, pv) =
        new_power_consumption_predictor-scanned fake_watt parse_url secrets namespace url scheme
          host name version u scanned n in
      (
        _,
        p,
        get-named_model prov m scheme host name version url e f j,
        made,
        pn,
        pv,
        endpoint-version net.join_path p (rw pv v) ∙ rw (at, pn, pv) j,
      )

  -- If the server names an empty version, and JoinPath drops it, then the predictor takes the last
  -- segment `infer` for the version.
  pub predictor-provider_no_version :
      (namespace : Text) (prov : EndpointProvider) (m : MachineLearningModel)
      (scheme host name : Text)
      → get_models net decode_members get_model_with_response prov ≡ ok (some m)
      → m.power_consumption_model ≡ named_model scheme host name []
      → Lacks b'/' scheme
      → Lacks b'/' host
      → Lacks b'/' name
      → is_empty name ≡ false
      → text_eq name (lit "models") ≡ false
      → net.join_path
          (base_url scheme host)
          (lit "v2/models" ∷ name ∷ lit "versions" ∷ [] ∷ lit "infer" ∷ [])
        ≡ some (model_url scheme host name (lit "infer" ∷ []))
      → parse_url (model_url scheme host name (lit "infer" ∷ [])) ≡ some (scheme, host)
      → (term : EndpointTerm) × (p : PowerConsumptionPredictor) × (get net decode_members
            get_model_with_response prov type_power_consumption
          ≡ returned (ok term))
        × (new_power_consumption_predictor fake_watt parse_url secrets namespace term
            ≡ ok (v2_predictor p))
        × (p.model_version ≡ lit "infer")
  predictor-provider_no_version namespace prov m scheme host name e f ls lh ln n a j u =
      let url = model_url scheme host name (lit "infer" ∷ []) in
      let scanned = scan-model_url_no_version scheme host name ls lh ln a in
      let (p, made, at, pn, pv) =
        new_power_consumption_predictor-scanned fake_watt parse_url secrets namespace url scheme
          host name (lit "infer") u scanned n in
      (_, p, get-named_model prov m scheme host name [] url e f j, made, pv)

module _ {Body : Type 0} (net : Net Body) (decode_members : Body → Option (List Text))
    (get_model_with_response : Text
      → Text
      → List RequestEditorFn
      → Option (ℕ × Option MachineLearningModel)) where
  -- The server answers the question for its models with status 200, and without JSON.
  abbrev pub AnswersNoJson : EndpointProvider → Type 0
  AnswersNoJson prov =
      (system_id : Text) × (get_system_id net decode_members get_model_with_response prov
        ≡ ok system_id)
      × (get_model_with_response prov.address system_id prov.editor_fns ≡ some (200, none))

  get_models-nil :
      (prov : EndpointProvider)
      → (get_models net decode_members get_model_with_response prov ≡ ok none) ↔ AnswersNoJson prov
  unfolding get_models
  get_models-nil prov =
      elim (Result-cases (get_system_id net decode_members get_model_with_response prov)) [
        | inr (x, e) ↦ rw (e, get_models) (ground arith)
        | inl (system_id, e) ↦
            elim (Option-cases (get_model_with_response prov.address system_id prov.editor_fns)) [
              | inl n ↦ (
                λ q. absurd (ground (arith, q, e, n)),
                λ (sid, f, g). absurd (ground (arith, e, n, f, g)),
              )
              | inr ((status, model), a) ↦ (
                λ q. (system_id, e, ground (arith, q, e, a)),
                λ (sid, f, g). ground (arith, e, a, f, g),
              )
            ]
      ]

  -- Get panics exactly if the server, once its system is found, answers the question for its models with
  -- status 200 but without JSON, and the type asked for is one of the two that are known.
  pub get-panics :
      (prov : EndpointProvider) (predictor_type : Text)
      → (get net decode_members get_model_with_response prov predictor_type ≡ panicked) ↔ (
          AnswersNoJson prov
          × ((text_eq predictor_type type_power_consumption
                || text_eq predictor_type type_response_time)
              ≡ true))
  unfolding get
  get-panics prov predictor_type = (
    λ p.
        let (nil, known) =
          (at_models (get_models net decode_members get_model_with_response prov) refl).0 p in
        ((get_models-nil prov).0 nil, known),
    λ (asked, known).
        (at_models (get_models net decode_members get_model_with_response prov) refl).1
          ((get_models-nil prov).1 asked, known),
  )
    where
      at_models :
          (r : Result ProviderError (Option MachineLearningModel))
          → get_models net decode_members get_model_with_response prov ≡ r
          → (get net decode_members get_model_with_response prov predictor_type ≡ panicked) ↔ (
              (get_models net decode_members get_model_with_response prov ≡ ok none)
              × ((text_eq predictor_type type_power_consumption
                    || text_eq predictor_type type_response_time)
                  ≡ true))
      at_models (err x) e = rw (e, get) (ground arith)
      at_models (ok none) e = rw (e, get) (ground arith)
      at_models (ok (some m)) e = rw (e, get) (ground arith)
