-- ===== src/Demo/Trials.antt =====
-- A machine on which the port of a backend is changed by its environment.
use text.Mathlib.TextLemmas.{append_cancel_left, append_assoc}
use pucora_ce.Base.{String, ◌<>◌, Bool, some, ◌≡◌, refl, ◌∙◌, str_eq, eq_iff, arith, if◌then◌else◌}
use pucora_ce.Demo.Common.{env_or}
use pucora_ce.Demo.Health.{websocket, run_status, run_status_iff}

abbrev reaches : String → String → Bool
reaches addr host = str_eq ("127.0.0.1" <> addr) host

same_port :
    (port asked : String) → ("127.0.0.1" <> (":" <> port) ≡ "127.0.0.1:" <> asked) → port ≡ asked
same_port port asked e =
    append_cancel_left "127.0.0.1:" port asked (append_assoc "127.0.0.1" ":" port ∙ e)

reaches-port :
    (port asked : String) → reaches (":" <> port) ("127.0.0.1:" <> asked) ≡ str_eq port asked
reaches-port port asked = ground (
  arith,
  eq_iff ("127.0.0.1" <> (":" <> port)) ("127.0.0.1:" <> asked),
  eq_iff port asked,
  same_port port asked,
  append_assoc "127.0.0.1" ":" port,
)

abbrev environment : String → String
environment key = if str_eq key "LISTEN_ADDR" then ":8081" else ""

run_status_iff_example : run_status reaches (λ h. 404) websocket environment ≡ some 0
unfolding env_or
run_status_iff_example =
    (run_status_iff reaches (λ h. 404) reaches-port websocket environment "8081" refl).1 refl
