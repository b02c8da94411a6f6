-- ===== src/Executor/Logging.antt =====
-- executor.go: `LoggerBuilder.NewLogger`, the default `LoggerFactory`.
use pucora_ce.Base.{String, Bool, true, false, List, [], ◌∷◌, ◌++◌, ◌≡◌, ◌↔◌, Option, none, some}
use pucora_ce.Base.{arith, if◌then◌else◌}
use pucora_ce.Base.Json.{Fields}
use pucora_ce.Executor.Collaborators.{Problem, sentinel, failed}
use pucora_ce.Base.Result.{Result, ok, err}
use pucora_ce.Executor.Event.{Level, debug, error}

pub data Tried (A : Type 0) : Type 0 where
  opened : A → Tried A
  refused : Problem → Tried A

-- The constructors of the logging libraries. `open_default` is the plain logger on the output.
pub record LogLibraries : Type 1 where
  pub Logger : Type 0
  pub Writer : Type 0
  pub open_gelf : Fields → Tried Writer
  pub open_logstash : Fields → Tried Logger
  pub open_gologging : Fields → List Writer → Tried Logger
  pub open_default : Result Logger

-- The results of `NewLogger`, with the lines that it logs and whether it chose the message-only
-- pattern for the GELF writer.
pub record NewLogger (L : LogLibraries) : Type 0 where
  pub logger : Result L.Logger
  pub gelf_writer : Option L.Writer
  pub lines : List (Level × List String)
  pub selects_formatter : Bool

abbrev pub improved : Level × List String
improved = (debug, "[SERVICE: telemetry/logging] Improved logging started." ∷ [])

module _ (L : LogLibraries) where
  open L use {Logger, Writer}

  abbrev gelf_writer_of : Tried Writer → Option Writer
  gelf_writer_of (opened w) = some w
  gelf_writer_of (refused p) = none

  abbrev writers_of : Tried Writer → List Writer
  writers_of (opened w) = w ∷ []
  writers_of (refused p) = []

  abbrev is_opened : {A : Type 0} → Tried A → Bool
  is_opened (opened a) = true
  is_opened (refused p) = false

  -- A line for an error, unless it is `ErrWrongConfig`.
  problem_line : String → Problem → List (Level × List String)
  problem_line text sentinel = []
  problem_line text (failed e) = (error, text ∷ e ∷ []) ∷ []

  gelf_lines : Tried Writer → List (Level × List String)
  unfolding problem_line
  gelf_lines (opened w) = []
  gelf_lines (refused p) = problem_line "[SERVICE: Logging][GELF] Unable to create the writer:" p

  -- The outcome for a logger, with the lines logged so far.
  finish : Tried Writer → Result Logger → List (Level × List String) → Bool → NewLogger L
  unfolding gelf_lines
  finish gelf (err e) lines good = record {
    logger = err e;
    gelf_writer = gelf_writer_of gelf;
    lines = [];
    selects_formatter = is_opened gelf;
  }
  finish gelf (ok logger) lines good = record {
    logger = ok logger;
    gelf_writer = gelf_writer_of gelf;
    lines = lines ++ (gelf_lines gelf ++ (if good then improved ∷ [] else []));
    selects_formatter = is_opened gelf;
  }

  with_gologging : Tried Writer → Tried Logger → NewLogger L
  unfolding finish
  with_gologging gelf (opened logger) = finish gelf (ok logger) [] true
  with_gologging gelf (refused p) =
      finish gelf L.open_default (problem_line "[SERVICE: Logging] Unable to create the logger:" p)
        false

  with_logstash : Fields → Tried Writer → Tried Logger → NewLogger L
  unfolding with_gologging
  with_logstash extra gelf (opened logger) = finish gelf (ok logger) [] true
  with_logstash extra gelf (refused p) =
      with_gologging gelf (L.open_gologging extra (writers_of gelf))

  unfoldable pub new_logger : Fields → NewLogger L
  unfolding with_logstash
  new_logger extra =
      let gelf = L.open_gelf extra in with_logstash extra gelf (L.open_logstash extra)

  abbrev pub WasRefused : {A : Type 0} → Tried A → Type 0
  WasRefused t = (p : Problem) × (t ≡ refused p)

  -- `NewLogger` fails, which ends the gateway's start, only with the error of the plain logger, and
  -- exactly when the Logstash logger and the improved one were refused before it. A GELF writer
  -- that cannot be opened is never the reason.
  pub new_logger_error_iff :
      (extra : Fields) (e : String)
      → ((new_logger extra).logger ≡ err e) ↔ (
          WasRefused (L.open_logstash extra)
          × WasRefused (L.open_gologging extra (writers_of (L.open_gelf extra)))
          × (L.open_default ≡ err e))
  unfolding new_logger
  new_logger_error_iff extra e = ground arith
