-- ===== src/Demo/Health.antt =====
-- examples: the health check of a mocked backend beside the server of the same program, on one machine
-- and with the same environment.
use pucora_ce.Base.{ℕ, String, ◌<>◌, Bool, List, [], ◌∷◌, Option, none, some, ◌≡◌, refl, ◌↔◌, arith}
use pucora_ce.Base.{str_eq, eq_iff, if◌then◌else◌}
use pucora_ce.Base.Cut.{cut, strip_prefix}
use pucora_ce.Base.Result.{Result, ok, err}
use pucora_ce.Demo.Common.{env_or, run_healthcheck, wants_healthcheck}
use pucora_ce.Demo.Routes.{
  Handler, health_handler, Server, handler, Process, checks, serves, process, soap_main,
  streaming_main, graphql_main, jwt_main, websocket_main, soap_handlers, streaming_handlers,
  graphql_handlers, jwt_handlers, websocket_handlers,
}
use pucora_ce.Base.Dict.{Dict}

pub data Program : Type 0 where
  soap streaming graphql jwt websocket : Program

unfoldable pub main : Program → List String → (String → String) → Process
main soap = soap_main
main streaming = streaming_main
main graphql = graphql_main
main jwt = jwt_main
main websocket = websocket_main

abbrev pub default_port : Program → String
default_port graphql = "4000"
default_port _ = "8081"

abbrev listening : (String → String) → String → Dict Handler → Server
listening getenv port handlers = record {
  addr = env_or getenv "LISTEN_ADDR" (":" <> port);
  handlers = handlers;
}

-- Whether a listener on an address gets what is sent to a host with a port, and the statuses that the
-- other handlers answer with.
module _ (reaches : String → String → Bool) (others : Handler → ℕ) where
  -- `healthHandler` answers with 200.
  unfoldable pub status : Handler → ℕ
  status health_handler = 200
  status h = others h

  found : Option Handler → Result ℕ
  unfolding status
  found none = ok 404
  found (some h) = ok (status h)

  at_host : Server → Option (String × String) → Result ℕ
  unfolding found
  at_host s none = err "no such URL"
  at_host s (some (host, path)) =
      if reaches s.addr host then found (handler s ("/" <> path)) else err "connection refused"

  without_scheme : Server → Option String → Result ℕ
  unfolding at_host
  without_scheme s none = err "no such URL"
  without_scheme s (some rest) = at_host s (cut "/" rest)

  -- What a server answers to a request for a URL.
  unfoldable pub ask : Server → String → Result ℕ
  unfolding without_scheme
  ask s url = without_scheme s (strip_prefix "http://" url)

  -- The exit status of a process that checks, beside one that serves.
  unfoldable pub health_status : Process → Process → Option ℕ
  health_status (checks url) (serves s) = some (run_healthcheck (ask s url))
  health_status _ _ = none

  pub run_status : Program → (String → String) → Option ℕ
  unfolding main
  run_status p getenv =
      health_status (main p ("backend" ∷ "healthcheck" ∷ []) getenv)
        (main p ("backend" ∷ []) getenv)

  -- An address without a host is reached by its port.
  module _
      (law : (port asked : String)
        → reaches (":" <> port) ("127.0.0.1:" <> asked) ≡ str_eq port asked) where
    answer_iff :
        (s : Server) (port asked : String)
        → s.addr ≡ ":" <> port
        → handler s "/health" ≡ some health_handler
        → (some (run_healthcheck (at_host s (some ("127.0.0.1:" <> asked, "health")))) ≡ some 0)
          ↔ (port ≡ asked)
    unfolding at_host found status run_healthcheck
    answer_iff s port asked a h = ground (arith, a, h, law port asked, eq_iff port asked)

    -- Where an address without a host is reached by its port, a mocked backend listens on the port of
    -- the environment, or on its own by default, and the health check of the same program with the
    -- same environment exits with 0 exactly if that is its own.
    pub run_status_iff :
        (p : Program) (getenv : String → String) (port : String)
        → env_or getenv "LISTEN_ADDR" (":" <> default_port p) ≡ ":" <> port
        → (run_status p getenv ≡ some 0) ↔ (port ≡ default_port p)
    unfolding run_status health_status ask main soap_main streaming_main graphql_main jwt_main
        websocket_main process wants_healthcheck handler strip_prefix cut
    run_status_iff soap getenv port e =
        answer_iff (listening getenv "8081" soap_handlers) port "8081" e refl
    run_status_iff streaming getenv port e =
        answer_iff (listening getenv "8081" streaming_handlers) port "8081" e refl
    run_status_iff graphql getenv port e =
        answer_iff (listening getenv "4000" graphql_handlers) port "4000" e refl
    run_status_iff jwt getenv port e =
        answer_iff (listening getenv "8081" jwt_handlers) port "8081" e refl
    run_status_iff websocket getenv port e =
        answer_iff (listening getenv "8081" websocket_handlers) port "8081" e refl
