-- ===== src/Outputs/Loki/Client.antt =====
-- internal/plugins/outputs/loki/loki.go: the plugin's state, its configuration and the request of a
-- batch. JSON, HTTP and `time.ParseDuration` are arguments.
pub mod Replies
use arbutus.Base.{
  ℕ, suc, ◌+◌, ◌≡◌, Bool, true, false, not, ◌&&◌, ◌||◌, List, [], ◌∷◌, ◌++◌, Option, none, some,
  ltb, leb, if◌then◌else◌, Bytes, codes, ◌⊎◌, inl, inr, beq_bytes, bytes_eq, format_uint, GoMap,
  lookup, insert,
}
use arbutus.Models.Plugin.{Outcome, returned, failed, panicked}
use arbutus.Models.{Telemetry, TelemetryType, type_log, Any}
use arbutus.Outputs.Loki.{Stream, Text, streams_from}

-- The fields that JSON fills.
pub record Settings : Type 0 where
  pub domain : Bytes
  pub endpoint : Bytes
  pub timeout : Bytes
  pub username : Bytes
  pub password : Bytes
  pub headers : GoMap Bytes Bytes

-- `http.Client` is its timeout here; it is nil until `Connect` has made one.
pub record Loki : Type 0 where
  pub settings : Settings
  pub url : Bytes
  pub client : Option ℕ

-- `New`
abbrev pub new_loki : Loki
new_loki = record {
  settings = record {
    domain = [];
    endpoint = [];
    timeout = [];
    username = [];
    password = [];
    headers = [];
  };
  url = [];
  client = none;
}

pub record Request : Type 0 where
  pub url : Bytes
  pub body : Bytes
  pub host : Option Bytes
  pub header : GoMap Bytes Bytes

pub data Response : Type 0 where
  answer : ℕ → Bytes → Response
  failure : Bytes → Response

-- The libraries, over the state `W` of the network. On the left of a sum is the text of an error.
pub record Web (W : Type 0) : Type 0 where
  pub marshal_config : GoMap Bytes Any → Bytes ⊎ Bytes
  -- `json.Unmarshal` into the fields: what they hold after it, and the error
  pub unmarshal : Bytes → Settings → Settings × Option Bytes
  pub parse_duration : Bytes → Bytes ⊎ ℕ
  pub marshal_streams : List Stream → Bytes ⊎ Bytes
  -- the error of `http.NewRequest` for a URL that it does not take
  pub url_error : Bytes → Option Bytes
  -- `Header.Set` writes under the canonical name
  pub canonical : Bytes → Bytes
  pub equal_fold : Bytes → Bytes → Bool
  pub basic_auth : Bytes → Bytes → Bytes
  -- `CloseIdleConnections`
  pub close_idle : W → W
  -- `client.Do` and the read of the body
  pub send : ℕ → Request → W → W × Response

abbrev is_empty : Bytes → Bool
is_empty [] = true
is_empty (b ∷ bs) = false

unfoldable pub or_default : Bytes → Bytes → Bytes
or_default [] default = default
or_default (b ∷ bs) default = b ∷ bs

module _ {W : Type 0} (web : Web W) where
  -- Validation and defaults, on the fields that were read.
  unfoldable pub complete : Settings → Loki → Loki × Option Bytes
  unfolding or_default
  complete s l =
      let endpoint = or_default s.endpoint (codes "/loki/api/v1/push") in
      let filled = record s { endpoint = endpoint; timeout = or_default s.timeout (codes "10s") } in
      if is_empty s.domain
      then (record l { settings = s }, some (codes "domain is required"))
      else (record l { settings = filled; url = s.domain ++ endpoint }, none)

  -- The state after it, and the error.
  unfoldable pub unmarshal_into : Settings × Option Bytes → Loki → Loki × Option Bytes
  unfolding complete
  unmarshal_into (s, some e) l =
      (record l { settings = s }, some (codes "failed to unmarshal config: " ++ e))
  unmarshal_into (s, none) l = complete s l

  unfoldable pub configure : GoMap Bytes Any → Loki → Loki × Option Bytes
  unfolding unmarshal_into
  configure config l = elim (web.marshal_config config) [
    | inl e ↦ (l, some (codes "failed to marshal config: " ++ e))
    | inr json ↦ unmarshal_into (web.unmarshal json l.settings) l
  ]

  -- The client, or the text of the error.
  unfoldable pub create_client : Bytes → Bytes ⊎ ℕ
  create_client timeout = elim (web.parse_duration timeout) [
    | inl e ↦ inl (codes "invalid timeout duration: " ++ e)
    | inr d ↦ inr d
  ]

  unfoldable pub make_client : Loki × Option Bytes → Loki × Option Bytes
  unfolding create_client
  make_client (l, some e) = (l, some (codes "configuration error: " ++ e))
  make_client (l, none) = elim (create_client l.settings.timeout) [
    | inl e ↦ (l, some (codes "failed to create HTTP client: " ++ e))
    | inr d ↦ (record l { client = some d }, none)
  ]

  unfoldable pub connect : GoMap Bytes Any → Loki → Loki × Option Bytes
  unfolding configure make_client
  connect config l = make_client (configure config l)

  set_header : Bytes → Bytes → Request → Request
  set_header k v r = record r { header = insert (web.canonical k) v r.header }

  add_headers : GoMap Bytes Bytes → Request → Request
  unfolding set_header
  add_headers [] r = r
  add_headers ((k, v) ∷ headers) r =
      add_headers headers
        (if web.equal_fold k (codes "host") then record r { host = some v } else set_header k v r)

  -- The request of a payload: the content type, then the configured headers, then the credentials if
  -- both are there.
  unfoldable pub request_of : Loki → Bytes → Request
  unfolding add_headers
  request_of l payload =
      let s = l.settings in
      let bare : Request = record { url = l.url; body = payload; host = none; header = [] } in
      let typed = set_header (codes "Content-Type") (codes "application/json") bare in
      let custom = add_headers s.headers typed in
      if not (is_empty s.username) && not (is_empty s.password)
      then set_header (codes "Authorization") (web.basic_auth s.username s.password) custom
      else custom

  judge : W × Response → W × Outcome
  judge (w, failure e) = (w, failed (codes "failed to send request: " ++ e))
  judge (w, answer status body) =
      if ltb status 200 || leb 300 status
      then (
        w,
        failed (codes "loki returned status " ++ (format_uint status ++ (codes ": " ++ body))),
      )
      else (w, returned)

  -- A nil client makes `client.Do` panic.
  do_request : Option ℕ → Request → W → W × Outcome
  unfolding judge
  do_request none r w = (w, panicked)
  do_request (some timeout) r w = judge (web.send timeout r w)

  unfoldable pub send_to_loki : Loki → List Stream → W → W × Outcome
  unfolding request_of do_request
  send_to_loki l streams w = elim (web.marshal_streams streams) [
    | inl e ↦ (w, failed (codes "failed to marshal streams: " ++ e))
    | inr payload ↦ elim (web.url_error l.url) [
      | some e ↦ (w, failed (codes "failed to create request: " ++ e))
      | none ↦ do_request l.client (request_of l payload) w
    ]
  ]

  unfoldable pub write : Text → Loki → List Telemetry → W → W × Outcome
  unfolding send_to_loki
  write text l [] w = (w, returned)
  write text l (t ∷ ts) w = send_to_loki l (streams_from text [] (t ∷ ts)) w

  idle : Option ℕ → W → W
  idle none w = w
  idle (some timeout) w = web.close_idle w

  -- `Close`, which gives no error.
  unfoldable pub close : Loki → W → W
  unfolding idle
  close l w = idle l.client w

-- `SupportedTypes`
abbrev pub supported_types : GoMap TelemetryType Bool
supported_types = (type_log, true) ∷ []
