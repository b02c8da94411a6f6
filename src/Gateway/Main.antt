-- ===== src/Gateway/Main.antt =====
-- cmd/pucora-ce/main.go: what `main` hands over to the command line library, with `RegisterEncoders`
-- (encoding.go) and `RegisterSubscriberFactories` (sd.go).
use pucora_ce.Base.{ℕ, String, not, List, [], ◌∷◌, ◌++◌}
use pucora_ce.Base.{str_eq, if◌then◌else◌}
use pucora_ce.Base.Dict.{Dict}
use pucora_ce.Base.Result.{Result, ok, err}
use pucora_ce.Alias.Defs.{register_aliases}

-- The parsers of the configuration libraries: the plain one, or the one for templates around it.
pub data Parser : Type 0 where
  koanf : Parser
  template : (parser : Parser) (partials settings path templates : String) → Parser

pub data Command : Type 0 where
  run plugin version audit test_plugin : Command
  check : (schema : String) → Command

-- What is registered in the encoding libraries.
pub data Encoder : Type 0 where
  xml rss fast_json xml_render fast_json_render : Encoder

pub data Call : Type 0 where
  notify : List String → Call
  signals_awaited : Call
  encoder : Encoder → Call
  aliases_set : Dict String → Call
  root_set : List Command → Call
  completion_disabled : Call
  executed : Parser → Call
  context_cancelled : Call

-- `RegisterEncoders`
pub register_encoders : List Call
register_encoders =
    encoder xml
    ∷ encoder rss
    ∷ encoder fast_json
    ∷ encoder xml_render
    ∷ encoder fast_json_render
    ∷ []

parser : (String → String) → Parser
parser getenv =
    if not (str_eq (getenv "FC_ENABLE") "")
    then template koanf (getenv "FC_PARTIALS") (getenv "FC_SETTINGS") (getenv "FC_OUT")
        (getenv "FC_TEMPLATES")
    else koanf

-- The embedded schema, or the empty text if it cannot be read.
raw_schema : Result String → String
raw_schema (ok schema) = schema
raw_schema (err e) = ""

commands : String → List Command
commands schema = run ∷ check schema ∷ plugin ∷ version ∷ audit ∷ test_plugin ∷ []

-- `main`, with the alias map of the configuration library and the order in which `aliases` is read.
unfoldable pub main : (String → String) → Result String → Dict String → Dict String → List Call
unfolding register_encoders parser raw_schema commands
main getenv schema order known =
    notify ("SIGINT" ∷ "SIGTERM" ∷ [])
    ∷ signals_awaited
    ∷ (register_encoders
        ++ (aliases_set (register_aliases order known)
            ∷ root_set (commands (raw_schema schema))
            ∷ completion_disabled
            ∷ executed (parser getenv)
            ∷ context_cancelled
            ∷ []))

-- `RegisterSubscriberFactories`: the service discovery by DNS is registered, and the function that is
-- returned does nothing with a name and a port.
pub data Discovery : Type 0 where
  dns_registered : Discovery

-- `registerSubscriberFactories.Register` forwards to it.
unfoldable pub register_subscriber_factories : List Discovery × (String → ℕ → List Discovery)
register_subscriber_factories = (dns_registered ∷ [], (λ name port. []))
