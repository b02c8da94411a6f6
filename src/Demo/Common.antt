-- ===== src/Demo/Common.antt =====
-- examples: what the mocked backends share, with the names that their files give it: the options in
-- the environment, the health check and the dispatch of `main`.
use pucora_ce.Base.{ℕ, String, Bool, false, List, ◌∷◌, Option, none, some, str_eq}
use pucora_ce.Base.{if◌then◌else◌, ◌==◌}
use pucora_ce.Base.Result.{Result, ok, err}

-- `envOr`
unfoldable pub env_or : (String → String) → String → String → String
env_or getenv key fallback = let v = getenv key in if str_eq v "" then fallback else v

-- The exit status of `runHealthcheck`, on the answer of `/health`: its status code or an error.
unfoldable pub run_healthcheck : Result ℕ → ℕ
run_healthcheck (ok code) = if code == 200 then 0 else 1
run_healthcheck (err e) = 1

-- `len(os.Args) > 1 && os.Args[1] == "healthcheck"`
unfoldable pub wants_healthcheck : List String → Bool
wants_healthcheck (program ∷ arg ∷ args) = str_eq arg "healthcheck"
wants_healthcheck _ = false

-- The server runs until `ListenAndServe` gives an error, with which `main` ends.
pub serve_status : Option String → ℕ
serve_status none = 0
serve_status (some e) = 1

-- The exit status of `main`, on its arguments, the answer of `/health` and the error of the server.
pub main : List String → Result ℕ → Option String → ℕ
unfolding run_healthcheck wants_healthcheck serve_status
main args health served =
    if wants_healthcheck args then run_healthcheck health else serve_status served
