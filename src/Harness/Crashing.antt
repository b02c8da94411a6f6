-- ===== src/Harness/Crashing.antt =====
-- cmd/pucora-integration/main.go on tests/integration.go: what the command leaves running on a machine,
-- and when a check of it panics.
use pucora_ce.Base.{String, List, ◌≡◌}
use pucora_ce.Base.Dict.{Dict}
use pucora_ce.Base.Result.{Result, ok}
use pucora_ce.Harness.Response.{Codecs, Message, Response}
use pucora_ce.Harness.Panics.{AnyBare}
use pucora_ce.Harness.Check.{TestCase, Http, Request, new_request}
use pucora_ce.Harness.Check as Check
use pucora_ce.Harness.Config.{Config, Flags, get_http_client}
use pucora_ce.Harness.Session.{Machine, Tools}

module _ (C : Codecs) (H : Http C) (join : List Message → String) where
  -- The answer to the request of the test case lacks a header that is wanted with no values.
  abbrev pub IsCrashing : TestCase → Type 0
  IsCrashing tc =
      (req : Request) × (new_request C H tc.input ≡ ok req)
      × (resp : Response C) × (H.send req ≡ ok resp)
      × AnyBare C resp tc.output.header

module _ (C : Codecs) (T : Tools C) (flags : Flags T.Client) (cfg : Config T.Client)
    (M : Machine) where
  abbrev http : Http C
  http = T.http (get_http_client flags cfg)
