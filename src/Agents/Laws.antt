-- ===== src/Agents/Laws.antt =====
-- pkg/metrics/redfish/agent.go: how an agent finds the kind of its server, and keeps it.
use waok8s.Prelude.{
  ◌≡◌, refl, sym, ◌∙◌, ◌⊎◌, inl, inr, List, [], ◌∷◌, none, some, Result, ok, err, In, here, there,
  All, arith, Result-cases, Option-cases, Text,
}
use waok8s.Agents.Http.{HttpError, Net, RequestEditorFn}
use waok8s.Agents.Redfish.{
  ServerType, Decoders, InletTempAgent, get_inlet_temp_fns, gather, try_server, fetch, join_errors,
}

-- The first result is from one of the goroutines; without a result, each of them failed.
gather-cases :
    {F : Type 0} (try_ : ServerType → Result HttpError F) (finished : List ServerType)
    → ((st : ServerType) × (v : F) × (rest : List (ServerType × F)) × ((gather try_ finished).0
          ≡ (st, v) ∷ rest)
        × In st finished
        × (try_ st ≡ ok v))
      ⊎ (((gather try_ finished).0 ≡ [])
          × All (λ (st : ServerType). (e : HttpError) × (try_ st ≡ err e)) finished)
unfolding gather
gather-cases try_ [] = inr (refl, tt)
gather-cases try_ (st ∷ finished) = elim (Result-cases (try_ st)) [
  | inl (v, e) ↦ inl (st, v, (gather try_ finished).0, rw (e, gather) refl, here refl, e)
  | inr (x, e) ↦ elim (gather-cases try_ finished) [
    | inl (su, v, rest, f, i, t) ↦ inl (su, v, rest, rw (e, gather) f, there i, t)
    | inr (f, each) ↦ inr (rw (e, gather) f, ((x, e), each))
  ]
]

module _ {F Body : Type 0} (net : Net Body) (decoders : Decoders F Body) where
  the_fn :
      (st : ServerType) (fn : Text → List RequestEditorFn → Result HttpError F) (a : InletTempAgent)
      → get_inlet_temp_fns net decoders st ≡ some fn
      → try_server net decoders a st ≡ fn a.address a.editor_fns
  unfolding try_server
  the_fn st fn a e = rw (e, try_server) refl

  -- A kind that answers has a function, which `Fetch` calls from then on.
  fetch-known :
      (st : ServerType) (v : F) (a : InletTempAgent) (finished : List ServerType)
      → try_server net decoders a st ≡ ok v
      → fetch net decoders finished (record a { server_type = st })
        ≡ (ok v, record a { server_type = st })
  unfolding fetch try_server
  fetch-known st v a finished e = elim (Option-cases (get_inlet_temp_fns net decoders st)) [
    | inl n ↦
        let failed : try_server net decoders a st ≡ err HttpError.no_endpoint =
          rw (n, try_server) refl in
        let impossible : err HttpError.no_endpoint ≡ ok v = sym failed ∙ e in absurd (ground arith)
    | inr (fn, f) ↦
        let answer : fn a.address a.editor_fns ≡ ok v = sym (the_fn st fn a f) ∙ e in
        rw (f, fetch) (rw answer refl)
  ]

  -- While the kind of the server is unknown, `Fetch` either returns what some kind of server answers and
  -- remembers that kind, so that the next `Fetch` returns the same value if the servers answer as before,
  -- or fails because each kind that was tried failed, and leaves the agent as it was.
  pub fetch-detects :
      (finished later : List ServerType) (a : InletTempAgent)
      → get_inlet_temp_fns net decoders a.server_type ≡ none
      → ((st : ServerType) × (v : F) × In st finished
          × (try_server net decoders a st ≡ ok v)
          × (fetch net decoders finished a ≡ (ok v, record a { server_type = st }))
          × (fetch net decoders later (fetch net decoders finished a).1
              ≡ fetch net decoders finished a))
        ⊎ (All
              (λ (st : ServerType). (e : HttpError) × (try_server net decoders a st ≡ err e))
              finished
            × ((e : HttpError) × (fetch net decoders finished a ≡ (err e, a))))
  unfolding fetch
  fetch-detects finished later a unknown =
      elim (gather-cases (try_server net decoders a) finished) [
        | inl (st, v, rest, f, i, t) ↦
            let first : fetch net decoders finished a ≡ (ok v, record a { server_type = st }) =
              rw (unknown, fetch) (rw f refl) in
            inl (st, v, i, t, first, rw first (fetch-known st v a later t))
        | inr (f, each) ↦ inr (
          each,
          (
            join_errors HttpError.all_failed (gather (try_server net decoders a) finished).1,
            rw (unknown, fetch) (rw f refl),
          ),
        )
      ]
