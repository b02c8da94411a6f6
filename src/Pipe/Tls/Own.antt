-- ===== src/Pipe/Tls/Own.antt =====
-- backend_client_tls.go: the client of a backend has a transport of its own.
use pucora_ce.Base.{ℕ, String, Option, none, some, ◌≡◌, refl, ◌↔◌, ◌≤◌, ◌<◌, ap, ◌∙◌}
use pucora_ce.Base.{arith, ◌⊎◌, inl, inr, sym, subst}
use pucora_ce.Base.Json.{Json, obj, Fields, get}
use pucora_ce.Base.Result.{ok}
use pucora_ce.Pipe.Tls.{
  TlsLibraries, Transport, RoundTripper, transport, opaque, Client, Heap, backend_tls, allocated,
  clone_or_empty, clone_http_transport, assign_tls, with_config, configured_client, empty_transport,
  new_http_client_with_backend_tls, parse_backend_http_client_tls,
}

module _ (L : TlsLibraries) where
  open L use {ClientTls, TlsConfig, Settings}

  -- The backend's configuration has an object under the namespace, with an entry `client_tls` that can
  -- be written as JSON and read back as TLS settings, of which the library makes a configuration.
  abbrev pub Asks : Option Fields → TlsConfig → Type 0
  Asks extra tls =
      (fields : Fields) × (extra ≡ some fields)
      × (v : Fields) × (get "backend/http/client" fields ≡ some (obj v))
      × (raw : Json) × (get "client_tls" v ≡ some raw)
      × (text : String) × (L.marshal raw ≡ ok text)
      × (settings : ClientTls) × (L.unmarshal text ≡ ok settings)
      × (L.parse_config settings ≡ some tls)

  backend_tls_iff :
      (extra : Option Fields) (tls : TlsConfig) → (backend_tls L extra ≡ some tls) ↔ Asks extra tls
  unfolding backend_tls parse_backend_http_client_tls
  backend_tls_iff none tls = ground arith
  backend_tls_iff (some extra) tls = ground arith

  -- The settings come from the client's transport, else from the default one, else they are zero.
  abbrev pub IsBasedOn : Heap L → RoundTripper L → Option (RoundTripper L) → Settings → Type 0
  IsBasedOn h default (some (transport r)) s = s ≡ (h.at r).settings
  IsBasedOn h (transport d) (some (opaque o)) s = s ≡ (h.at d).settings
  IsBasedOn h (opaque d) (some (opaque o)) s = s ≡ L.zero_settings
  IsBasedOn h (transport d) none s = s ≡ (h.at d).settings
  IsBasedOn h (opaque d) none s = s ≡ L.zero_settings

  -- A client with a new transport, which has the configuration; no other transport has changed.
  pub record IsDerived (default : RoundTripper L) (next : Client L) (h : Heap L) (tls : TlsConfig)
      (c : Client L) (g : Heap L) : Type 0 where
    pub ref : ℕ
    pub is_new : h.next ≤ ref
    pub own : c.round_tripper ≡ some (transport ref)
    pub configured : (g.at ref).tls_client_config ≡ some tls
    pub based : IsBasedOn h default next.round_tripper (g.at ref).settings
    pub others : (r : ℕ) → r < h.next → g.at r ≡ h.at r
    pub same_redirect : c.check_redirect ≡ next.check_redirect
    pub same_jar : c.jar ≡ next.jar
    pub same_timeout : c.timeout ≡ next.timeout

  clone-next :
      (default : RoundTripper L) (rt : Option (RoundTripper L)) (h : Heap L)
      → (clone_http_transport L default rt h).0 ≡ h.next
  unfolding clone_http_transport
  clone-next default (some (transport r)) h = refl
  clone-next (transport d) (some (opaque o)) h = refl
  clone-next (opaque d) (some (opaque o)) h = refl
  clone-next (transport d) none h = refl
  clone-next (opaque d) none h = refl

  allocated-at : (t : Transport L) (h : Heap L) → (allocated L t h).1.at h.next ≡ t
  unfolding allocated
  allocated-at t h = ground arith

  allocated-others :
      (t : Transport L) (h : Heap L) (r : ℕ) → r < h.next → (allocated L t h).1.at r ≡ h.at r
  unfolding allocated
  allocated-others t h r l = ground (arith, l)

  abbrev settings_of : Transport L → Settings
  settings_of t = t.settings

  clone-IsBasedOn :
      (default : RoundTripper L) (rt : Option (RoundTripper L)) (h : Heap L)
      → IsBasedOn h default rt ((clone_http_transport L default rt h).1.at h.next).settings
  unfolding clone_http_transport clone_or_empty
  clone-IsBasedOn default (some (transport r)) h = ap settings_of (allocated-at (h.at r) h)
  clone-IsBasedOn (transport d) (some (opaque o)) h = ap settings_of (allocated-at (h.at d) h)
  clone-IsBasedOn (opaque d) (some (opaque o)) h =
      ap settings_of (allocated-at (empty_transport L) h)
  clone-IsBasedOn (transport d) none h = ap settings_of (allocated-at (h.at d) h)
  clone-IsBasedOn (opaque d) none h = ap settings_of (allocated-at (empty_transport L) h)

  clone-others :
      (default : RoundTripper L) (rt : Option (RoundTripper L)) (h : Heap L) (r : ℕ)
      → r < h.next
      → (clone_http_transport L default rt h).1.at r ≡ h.at r
  unfolding clone_http_transport clone_or_empty
  clone-others default (some (transport n)) h = allocated-others (h.at n) h
  clone-others (transport d) (some (opaque o)) h = allocated-others (h.at d) h
  clone-others (opaque d) (some (opaque o)) h = allocated-others (empty_transport L) h
  clone-others (transport d) none h = allocated-others (h.at d) h
  clone-others (opaque d) none h = allocated-others (empty_transport L) h

  -- The new transport, once the configuration is assigned to it.
  assign-at :
      (tls : TlsConfig) (t : ℕ) (g : Heap L)
      → (assign_tls L tls t g).at t ≡ record (g.at t) { tls_client_config = some tls }
  unfolding assign_tls
  assign-at tls t g = ground arith

  assign-others :
      (tls : TlsConfig) (t : ℕ) (g : Heap L) (r : ℕ) → r < t → (assign_tls L tls t g).at r ≡ g.at r
  unfolding assign_tls
  assign-others tls t g r l = ground (arith, l)

  abbrev tls_of : Transport L → Option TlsConfig
  tls_of t = t.tls_client_config

  with_config-IsDerived :
      (default : RoundTripper L) (next : Client L) (h : Heap L) (tls : TlsConfig)
      → let (c, g) = with_config L default tls next h in IsDerived default next h tls c g
  unfolding with_config
  with_config-IsDerived default next h tls =
      let rt = next.round_tripper in
      let t = (clone_http_transport L default rt h).0 in
      let cloned = (clone_http_transport L default rt h).1 in
      let e = clone-next default rt h in
      record {
        ref = t;
        is_new = omega (arith, e);
        own = refl;
        configured = ap tls_of (assign-at tls t cloned);
        based = subst (IsBasedOn h default rt) (sym (ap settings_of (assign-at tls t cloned))) (
            subst (λ n. IsBasedOn h default rt (cloned.at n).settings) (sym e)
              (clone-IsBasedOn default rt h));
        others = λ r l.
            assign-others tls t cloned r (omega (arith, e, l)) ∙ clone-others default rt h r l;
        same_redirect = refl;
        same_jar = refl;
        same_timeout = refl;
      }

  configured_client_lem :
      (default : RoundTripper L) (A : TlsConfig → Type 0) (next : Client L) (h : Heap L)
      (o : Option TlsConfig)
      → ((tls : TlsConfig) → (o ≡ some tls) ↔ A tls)
      → let (c, g) = configured_client L default o next h in
        ((tls : TlsConfig) × A tls × IsDerived default next h tls c g)
        ⊎ (((tls : TlsConfig) → ¬ A tls) × (c ≡ next) × (g ≡ h))
  unfolding configured_client
  configured_client_lem default A next h none asks =
      inr ((λ tls a. absurd (ground (arith, (asks tls).1 a))), refl, refl)
  configured_client_lem default A next h (some tls) asks =
      inl (tls, (asks tls).0 refl, with_config-IsDerived default next h tls)

  -- The client of a backend either gets the TLS configuration that the backend's section asks for, and
  -- then keeps its redirect policy, cookie jar and timeout and has a transport of its own: a new one
  -- with that configuration, with the settings of the client's transport, or of the default one if it
  -- had none or one of another type, while no transport that was there is changed. Or no section asks
  -- for a configuration, and then the client and all transports are as they were.
  pub new_http_client_with_backend_tls_lem :
      (default : RoundTripper L) (extra : Option Fields) (next : Client L) (h : Heap L)
      → let (c, g) = new_http_client_with_backend_tls L default extra next h in
        ((tls : TlsConfig) × Asks extra tls × IsDerived default next h tls c g)
        ⊎ (((tls : TlsConfig) → ¬ Asks extra tls) × (c ≡ next) × (g ≡ h))
  unfolding new_http_client_with_backend_tls
  new_http_client_with_backend_tls_lem default extra next h =
      configured_client_lem default (Asks extra) next h (backend_tls L extra)
        (backend_tls_iff extra)
