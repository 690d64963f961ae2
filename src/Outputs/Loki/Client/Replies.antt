-- ===== src/Outputs/Loki/Client/Replies.antt =====
-- When `Connect`, `Write` and the request they lead to succeed.
use mathlib.Core.Path.{subst}
use arbutus.Base.{
  ℕ, ◌≤◌, ◌<◌, ◌≡◌, ◌↔◌, refl, ◌≢◌, ap, Sum-cases, Option-cases, inl, inr, List, [], ◌∷◌, ◌++◌,
  Option, none, some, Bytes, Bool-cases, arith, GoMap,
}
use arbutus.Models.{Telemetry, Any}
use arbutus.Models.Plugin.{returned, panicked}
use arbutus.Outputs.Loki.{Text, Stream, streams_from}
use arbutus.Outputs.Loki.Client.{
  Web, Loki, Settings, is_empty, Response, answer, failure, judge, do_request, send_to_loki, write,
  request_of, complete, configure, unmarshal_into, make_client, connect,
}

module _ {W : Type 0} (web : Web W) where
  -- A batch is delivered when the server's status says so.
  abbrev pub IsAccepted : Response → Type 0
  IsAccepted (answer status body) = (200 ≤ status) × (status < 300)
  IsAccepted (failure e) = ⊥

  judge-IsAccepted :
      (w : W) (r : Response)
      → ((judge web (w, r)).0 ≡ w) × (((judge web (w, r)).1 ≡ returned) ↔ IsAccepted r)
  unfolding judge
  judge-IsAccepted w (failure e) = (refl, ((λ h. cc), λ h. absurd h))
  judge-IsAccepted w (answer status body) = ground arith

  -- With a client, a URL and a batch that can be encoded, `Write` sends one request, and it returns
  -- without an error just if the server answers with a status from 200 to 299.
  pub write-IsAccepted :
      (text : Text) (l : Loki) (t : Telemetry) (ts : List Telemetry) (w : W) (timeout : ℕ)
      (payload : Bytes) (next : W) (response : Response)
      → l.client ≡ some timeout
      → web.url_error l.url ≡ none
      → web.marshal_streams (streams_from text [] (t ∷ ts)) ≡ inr payload
      → web.send timeout (request_of web l payload) w ≡ (next, response)
      → ((write web text l (t ∷ ts) w).0 ≡ next)
        × (((write web text l (t ∷ ts) w).1 ≡ returned) ↔ IsAccepted response)
  unfolding write send_to_loki do_request
  write-IsAccepted text l t ts w timeout payload next response client url json sent =
      rw (json, url, client, sent, write, send_to_loki, do_request) (judge-IsAccepted next response)

  -- `Write` of this batch gets as far as the request, and there is no client to send it.
  abbrev pub LacksClient : Text → Loki → List Telemetry → Type 0
  LacksClient text l ts =
      (ts ≢ [])
      × ((payload : Bytes) × (web.marshal_streams (streams_from text [] ts) ≡ inr payload))
      × (web.url_error l.url ≡ none)
      × (l.client ≡ none)

  judge_returns : (r : W × Response) → (judge web r).1 ≢ panicked
  unfolding judge
  judge_returns (w, failure e) h = cc
  judge_returns (w, answer status body) h = ground (arith, h)

  -- `Write` panics just if the batch is not empty, its streams can be encoded, the URL is taken, and there
  -- is no client, which is so until `Connect` has succeeded: no answer of the network makes it panic.
  pub write-panics :
      (text : Text) (l : Loki) (ts : List Telemetry) (w : W)
      → ((write web text l ts w).1 ≡ panicked) ↔ LacksClient text l ts
  unfolding write send_to_loki do_request
  write-panics text l [] w = (λ h. cc, λ lacks. absurd (lacks.0 refl))
  write-panics text l (t ∷ ts) w =
      elim (Sum-cases (web.marshal_streams (streams_from text [] (t ∷ ts)))) [
        | inl (e, bad) ↦
            (λ h. cc (rw (bad, write, send_to_loki) at h), λ lacks. cc (bad, lacks.1.1))
        | inr (payload, json) ↦ elim (Option-cases (web.url_error l.url)) [
          | inr (e, bad) ↦
              (λ h. cc (rw (json, bad, write, send_to_loki) at h), λ lacks. cc (bad, lacks.2))
          | inl url ↦ elim (Option-cases l.client) [
            | inl client ↦ (
              λ h. ((λ q. cc), (payload, json), url, client),
              λ lacks. rw (json, url, client, write, send_to_loki, do_request),
            )
            | inr (timeout, client) ↦ (
              λ h. absurd (
                  judge_returns (web.send timeout (request_of web l payload) w)
                    (rw (json, url, client, write, send_to_loki, do_request) at h)),
              λ lacks. cc (client, lacks.3),
            )
          ]
        ]
      ]

  -- What `Write` needs of the plugin: a client with the parsed timeout, a domain, and the URL of the
  -- endpoint there.
  pub record IsReady (l : Loki) : Type 0 where
    pub timeout : ℕ
    pub client : l.client ≡ some timeout
    pub parsed : web.parse_duration l.settings.timeout ≡ inr timeout
    pub domain : l.settings.domain ≢ []
    pub url : l.url ≡ l.settings.domain ++ l.settings.endpoint

  complete-url :
      (s : Settings) (l r : Loki)
      → complete web s l ≡ (r, none)
      → (r.settings.domain ≢ []) × (r.url ≡ r.settings.domain ++ r.settings.endpoint)
  unfolding complete
  complete-url s l r h = elim (Bool-cases (is_empty s.domain)) [
    | inl e ↦ cc (ap (λ p. p.1) (rw (e, complete) at h))
    | inr e ↦
        subst (λ x. (x.settings.domain ≢ []) × (x.url ≡ x.settings.domain ++ x.settings.endpoint))
          (ap (λ p. p.0) (rw (e, complete) at h)) ((λ q. cc (rw (ap is_empty q) at e)), refl)
  ]

  unmarshal_into-url :
      (u : Settings × Option Bytes) (l r : Loki)
      → unmarshal_into web u l ≡ (r, none)
      → (r.settings.domain ≢ []) × (r.url ≡ r.settings.domain ++ r.settings.endpoint)
  unfolding unmarshal_into
  unmarshal_into-url (s, some e) l r h = cc (ap (λ p. p.1) h)
  unmarshal_into-url (s, none) l r h = complete-url s l r h

  configure-url :
      (config : GoMap Bytes Any) (l r : Loki)
      → configure web config l ≡ (r, none)
      → (r.settings.domain ≢ []) × (r.url ≡ r.settings.domain ++ r.settings.endpoint)
  unfolding configure
  configure-url config l r h = elim (Sum-cases (web.marshal_config config)) [
    | inl (e, q) ↦ cc (ap (λ p. p.1) (rw (q, configure) at h))
    | inr (json, q) ↦
        unmarshal_into-url (web.unmarshal json l.settings) l r (rw (q, configure) at h)
  ]

  make_client-IsReady :
      (c : Loki × Option Bytes) (r : Loki)
      → ((l : Loki)
          → c ≡ (l, none)
          → (l.settings.domain ≢ []) × (l.url ≡ l.settings.domain ++ l.settings.endpoint))
      → make_client web c ≡ (r, none)
      → IsReady r
  unfolding make_client
  make_client-IsReady (l, some e) r configured h = cc (ap (λ p. p.1) h)
  make_client-IsReady (l, none) r configured h =
      elim (Sum-cases (web.parse_duration l.settings.timeout)) [
        | inl (d, e) ↦ cc (ap (λ p. p.1) (rw (e, make_client) at h))
        | inr (d, e) ↦
            let url = configured l refl in
            subst (λ x. IsReady x) (ap (λ p. p.0) (rw (e, make_client) at h))
              (record { timeout = d; client = refl; parsed = e; domain = url.0; url = url.1 })
      ]

  -- When `Connect` gives no error, the plugin is ready for `Write`: it has a client with the
  -- configured timeout, and the URL is that of the endpoint on a domain that is not empty.
  pub connect-IsReady :
      (config : GoMap Bytes Any) (l r : Loki) → connect web config l ≡ (r, none) → IsReady r
  unfolding connect
  connect-IsReady config l r h =
      make_client-IsReady (configure web config l) r (configure-url config l) h

  judge_calm : (r : W × Response) → (judge web r).1 ≢ panicked
  unfolding judge
  judge_calm (w, failure e) = λ q. cc
  judge_calm (w, answer status body) = ground arith

  send_to_loki_calm :
      (l : Loki) (streams : List Stream) (w : W) (timeout : ℕ)
      → l.client ≡ some timeout
      → (send_to_loki web l streams w).1 ≢ panicked
  unfolding send_to_loki do_request
  send_to_loki_calm l streams w timeout c = elim (Sum-cases (web.marshal_streams streams)) [
    | inl (e, q) ↦ rw (q, send_to_loki) (λ p. cc)
    | inr (payload, q) ↦ elim (Option-cases (web.url_error l.url)) [
      | inl u ↦
          rw (q, u, c, send_to_loki, do_request)
            (judge_calm (web.send timeout (request_of web l payload) w))
      | inr (e, u) ↦ rw (q, u, send_to_loki) (λ p. cc)
    ]
  ]

  -- With a client, `Write` never panics, whatever the libraries and the network answer.
  pub write_calm :
      (text : Text) (l : Loki) (batch : List Telemetry) (w : W) (timeout : ℕ)
      → l.client ≡ some timeout
      → (write web text l batch w).1 ≢ panicked
  unfolding write
  write_calm text l [] w timeout c = λ q. cc
  write_calm text l (t ∷ ts) w timeout c =
      send_to_loki_calm l (streams_from text [] (t ∷ ts)) w timeout c
