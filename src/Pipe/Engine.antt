-- ===== src/Pipe/Engine.antt =====
-- router_engine.go: `NewEngine`, the answers of the engine where no route or method fits.
use pucora_ce.Base.{ℕ, String, Bool, true, false, not, List, [], ◌∷◌, Option, none, some, ◌≡◌}
use pucora_ce.Base.{◌≢◌, ◌↔◌, arith, if◌then◌else◌}
use pucora_ce.Base.Json.{Json, null, Fields, get}
use pucora_ce.Executor.Collaborators.{Problem, sentinel, failed}

-- `ginOptions`: the bodies for 404 and 405, `null` for a nil one.
pub record GinOptions : Type 0 where
  pub err_404 : Json
  pub err_405 : Json

-- `defaultHandler`, which sets two headers, or `jsonHandler`, which writes a status and a body too.
pub data Handler : Type 0 where
  default_handler : Handler
  json_handler : ℕ → Json → Handler

-- What the instrumented handler of an endpoint name does.
pub record Endpoint : Type 0 where
  pub name : String
  pub handler : Handler

pub data Line : Type 0 where
  warning debug : List String → Line

-- The engine's two handlers, the modules registered in it, and the lines logged.
pub record Engine : Type 0 where
  pub no_route : Endpoint
  pub no_method : Endpoint
  pub modules : List String
  pub lines : List Line

-- The decoding of the options, by `json.Marshal` and `json.Unmarshal` with their errors ignored, and
-- the answer of `httpsecure.Register`.
module _ (namespace : String) (decode : Json → GinOptions) (http_secure : Option Problem) where
  abbrev is_null : Json → Bool
  is_null null = true
  is_null _ = false

  set_no_route : Json → Engine → Engine
  set_no_route body e =
      if not (is_null body)
      then record e { no_route = record { name = "NoRoute"; handler = json_handler 404 body } }
      else e

  set_no_method : Json → Engine → Engine
  set_no_method body e =
      if not (is_null body)
      then record e { no_method = record { name = "NoMethod"; handler = json_handler 405 body } }
      else e

  with_options : Option Json → Engine → Engine
  unfolding set_no_route set_no_method
  with_options none e = e
  with_options (some v) e =
      if is_null v then e else set_no_method (decode v).err_405 (set_no_route (decode v).err_404 e)

  secure_lines : Option Problem → List Line
  secure_lines none = debug ("[SERVICE: Gin][HTTPsecure] Successfully loaded module" ∷ []) ∷ []
  secure_lines (some sentinel) = []
  secure_lines (some (failed e)) = warning ("[SERVICE: Gin][HTTPsecure]" ∷ e ∷ []) ∷ []

  start_engine : Engine
  start_engine = record {
    no_route = record { name = "NoRoute"; handler = default_handler };
    no_method = record { name = "NoMethod"; handler = default_handler };
    modules = [];
    lines = [];
  }

  unfoldable pub new_engine : Fields → Engine
  unfolding with_options secure_lines start_engine
  new_engine extra =
      let e = with_options (get namespace extra) start_engine in
      record e {
        modules = "httpsecure" ∷ "lua" ∷ "botdetector" ∷ [];
        lines = secure_lines http_secure;
      }

  -- The body that the configuration sets for one of the two answers.
  pub record Configures (extra : Fields) (body : GinOptions → Json) (value : Json) : Type 0 where
    pub section : Json
    pub present : get namespace extra ≡ some section
    pub non_null : section ≢ null
    pub decoded : body (decode section) ≡ value
    pub non_nil : value ≢ null

  -- Each of the two answers has a JSON body, with its own status, exactly when the configuration
  -- sets that body; neither depends on the other.
  new_engine-bodies_iff :
      (extra : Fields) (value : Json)
      → (((new_engine extra).no_route.handler ≡ json_handler 404 value)
          ↔ Configures extra (λ o. o.err_404) value)
        × (((new_engine extra).no_method.handler ≡ json_handler 405 value)
            ↔ Configures extra (λ o. o.err_405) value)
  unfolding new_engine
  new_engine-bodies_iff extra value = ground arith
