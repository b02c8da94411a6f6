-- ===== src/Demo/Flights.antt =====
-- examples/grpc/mock-backend/main.go: the mocked gRPC service.
use pucora_ce.Base.{ℕ, String, List, [], ◌∷◌, Option, none, some}
use pucora_ce.Base.{if◌then◌else◌}
use pucora_ce.Demo.Common.{wants_healthcheck}

pub record Flight : Type 0 where
  pub id : String
  pub destination : String

-- Whatever is asked for, there is one flight.
pub find_flight : List Flight
find_flight = record { id = "FL-001"; destination = "NYC" } ∷ []

failed_status : Option String → ℕ
failed_status none = 0
failed_status (some e) = 1

served_status : Option String → Option String → ℕ
unfolding failed_status
served_status none served = failed_status served
served_status (some e) served = 1

-- The exit status, with the errors of dialling, listening and serving.
pub main : List String → Option String → Option String → Option String → ℕ
unfolding failed_status served_status
main args dialled listened served =
    if wants_healthcheck args then failed_status dialled else served_status listened served
