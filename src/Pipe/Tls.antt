-- ===== src/Pipe/Tls.antt =====
-- backend_client_tls.go: the TLS settings of the client of one backend.
pub mod Own
use pucora_ce.Base.{ℕ, suc, String, Option, none, some, ◌==◌, if◌then◌else◌}
use pucora_ce.Base.Json.{Json, Fields, get, as_object}
use pucora_ce.Base.Result.{Result, ok, err}

abbrev pub backend_http_client_namespace : String
backend_http_client_namespace = "backend/http/client"

-- The types of the HTTP client that are not looked into, the JSON codec of `config.ClientTLS`, and
-- `ParseClientTLSConfigWithLogger`, whose result may be nil.
pub record TlsLibraries : Type 1 where
  pub ClientTls : Type 0
  pub TlsConfig : Type 0
  pub Settings : Type 0
  pub Opaque : Type 0
  pub CheckRedirect : Type 0
  pub Jar : Type 0
  pub zero_settings : Settings
  pub marshal : Json → Result String
  pub unmarshal : String → Result ClientTls
  pub parse_config : ClientTls → Option TlsConfig

module _ (L : TlsLibraries) where
  open L use {ClientTls, TlsConfig, Settings, Opaque, CheckRedirect, Jar}

  -- `http.Transport`: the TLS configuration, and its other settings.
  pub record Transport : Type 0 where
    pub tls_client_config : Option TlsConfig
    pub settings : Settings

  -- The transports of the process by their references, of which `next` is the first that is free.
  pub record Heap : Type 0 where
    pub next : ℕ
    pub at : ℕ → Transport

  -- A round tripper, which is a reference to a transport, or of another type.
  pub data RoundTripper : Type 0 where
    transport : ℕ → RoundTripper
    opaque : Opaque → RoundTripper

  pub record Client : Type 0 where
    pub round_tripper : Option RoundTripper
    pub check_redirect : Option CheckRedirect
    pub jar : Option Jar
    pub timeout : ℕ

  decoded : Result ClientTls → Option ClientTls
  decoded (ok tls) = some tls
  decoded (err e) = none

  encoded : Result String → Option ClientTls
  unfolding decoded
  encoded (ok raw) = decoded (L.unmarshal raw)
  encoded (err e) = none

  in_section : Option Fields → Option ClientTls
  unfolding encoded
  in_section none = none
  in_section (some v) = elim (get "client_tls" v) [
    | none ↦ none
    | some raw ↦ encoded (L.marshal raw)
  ]

  -- On the extra configuration of a backend; a nil backend has none.
  unfoldable pub parse_backend_http_client_tls : Option Fields → Option ClientTls
  unfolding in_section
  parse_backend_http_client_tls none = none
  parse_backend_http_client_tls (some extra) =
      in_section (as_object (get backend_http_client_namespace extra))

  -- `http.Transport{}`
  abbrev pub empty_transport : Transport
  empty_transport = record { tls_client_config = none; settings = L.zero_settings }

  unfoldable pub allocated : Transport → Heap → ℕ × Heap
  allocated t h =
      (h.next, record { next = suc h.next; at = λ r. if r == h.next then t else h.at r })

  unfoldable pub clone_or_empty : RoundTripper → Heap → ℕ × Heap
  unfolding allocated
  clone_or_empty (transport r) h = allocated (h.at r) h
  clone_or_empty (opaque o) h = allocated empty_transport h

  -- `Clone` makes a new transport; `default` is `http.DefaultTransport`.
  unfoldable pub clone_http_transport : RoundTripper → Option RoundTripper → Heap → ℕ × Heap
  unfolding clone_or_empty allocated
  clone_http_transport default none h = clone_or_empty default h
  clone_http_transport default (some (transport r)) h = allocated (h.at r) h
  clone_http_transport default (some (opaque o)) h = clone_or_empty default h

  -- `transport.TLSClientConfig = tlsConfig`
  unfoldable pub assign_tls : TlsConfig → ℕ → Heap → Heap
  assign_tls tls t h = record h {
    at = λ r. if r == t then record (h.at r) { tls_client_config = some tls } else h.at r;
  }

  unfoldable pub with_config : RoundTripper → TlsConfig → Client → Heap → Client × Heap
  unfolding clone_http_transport assign_tls
  with_config default tls base h =
      let (t, g) = clone_http_transport default base.round_tripper h in
      (
        record {
          round_tripper = some (transport t);
          check_redirect = base.check_redirect;
          jar = base.jar;
          timeout = base.timeout;
        },
        assign_tls tls t g,
      )

  -- The TLS configuration that the backend asks for, if it is to be used.
  unfoldable pub backend_tls : Option Fields → Option TlsConfig
  backend_tls extra = elim (parse_backend_http_client_tls extra) [
    | none ↦ none
    | some tls ↦ L.parse_config tls
  ]

  unfoldable pub configured_client : RoundTripper → Option TlsConfig → Client → Heap → Client × Heap
  unfolding with_config
  configured_client default none next h = (next, h)
  configured_client default (some tls) next h = with_config default tls next h

  -- On the client that the next factory makes.
  unfoldable pub new_http_client_with_backend_tls :
      RoundTripper → Option Fields → Client → Heap → Client × Heap
  unfolding configured_client
  new_http_client_with_backend_tls default extra next h =
      configured_client default (backend_tls extra) next h
