-- ===== src/Agents/Http.antt =====
-- wao-metrics-adapter/pkg/util/http.go, and the steps that each HTTP call of the agents and the predictors
-- takes. The packages net/http, net/url and encoding/json are parameters.
use waok8s.Prelude.{
  ℕ, suc, Bool, true, false, not, ◌&&◌, List, [], ◌∷◌, Option, none, some, Text, lit, Dict,
  lookup_or, Result, ok, err, or_fail, ◌>>=◌, ◌==◌,
}

pub record Request : Type 0 where
  pub method : Text
  pub url : Text
  pub body : Text
  pub basic_auth : Option (Text × Text)

pub data HttpError : Type 0 where
  no_endpoint bad_url bad_request not_sent not_decoded invalid_response wrong_sensor
        sensor_not_found cancelled all_failed not_marshalled :
      HttpError
  editor_failed : ℕ → HttpError
  http_status : ℕ → HttpError
  joined : HttpError → HttpError → HttpError

-- `url.JoinPath`, `http.NewRequestWithContext`, and `Client.Do`: the status and the body of the answer.
pub record Net (Body : Type 0) : Type 0 where
  pub join_path : Text → List Text → Option Text
  pub new_request : Text → Text → Text → Option Request
  pub send : Request → Option (ℕ × Body)

-- `RequestEditorFn`: the request after the call, or none on an error.
abbrev pub RequestEditorFn : Type 0
RequestEditorFn = Request → Option Request

abbrev pub is_empty : Text → Bool
is_empty [] = true
is_empty (c ∷ s) = false

-- `WithBasicAuth`, `WithCurlLogger`
unfoldable pub with_basic_auth : Text → Text → RequestEditorFn
with_basic_auth username password req = elim (not (is_empty username) && not (is_empty password)) [
  | true ↦ some (record req { basic_auth = some (username, password) })
  | false ↦ some req
]

unfoldable pub with_curl_logger : RequestEditorFn
with_curl_logger req = some req

-- The loop `for i, f := range editorFns`.
unfoldable pub edit_request : ℕ → List RequestEditorFn → Request → Result HttpError Request
edit_request i [] req = ok req
edit_request i (f ∷ fs) req = elim (f req) [
  | none ↦ err (HttpError.editor_failed i)
  | some edited ↦ edit_request (suc i) fs edited
]

-- From the URL and the body of the request to the body of an answer with status 200.
unfoldable pub call {ℓ} :
    {Body : Type 0} {A : Type ℓ}
    → Net Body
    → List RequestEditorFn
    → Text
    → Option Text
    → HttpError
    → Result HttpError Text
    → (Body → Result HttpError A)
    → Result HttpError A
unfolding edit_request
call net fns method url_of no_url body_of read = or_fail url_of no_url >>= λ url.
    body_of >>= λ body. or_fail (net.new_request method url body) HttpError.bad_request >>= λ req.
    edit_request 0 fns req >>= λ edited. or_fail (net.send edited) HttpError.not_sent >>= λ answer.
    elim (answer.0 == 200) [ true ↦ read answer.1 | false ↦ err (HttpError.http_status answer.0) ]

abbrev username_key : Text
username_key = lit "username"

abbrev password_key : Text
password_key = lit "password"

-- `GetBasicAuthFromNamespaceScopedSecret`, where the secret of a name, if there is one, is a parameter.
unfoldable pub get_basic_auth :
    (Text → Text → Option (Dict Text)) → Text → Option Text → Text × Text
unfolding lookup_or
get_basic_auth secrets namespace none = ([], [])
get_basic_auth secrets namespace (some name) = elim (is_empty name) [
  | true ↦ ([], [])
  | false ↦ elim (secrets namespace name) [
    | none ↦ ([], [])
    | some data_ ↦ (lookup_or [] username_key data_, lookup_or [] password_key data_)
  ]
]
