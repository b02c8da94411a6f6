-- ===== src/Demo/Websocket.antt =====
-- examples/websocket/mock-backend/main.go: the multiplexed and the direct echo over WebSockets.
use pucora_ce.Base.{ℕ, suc, String, ◌<>◌, Bool, true, false, not, ◌&&◌, List, [], ◌∷◌, ◌++◌, ◌≡◌}
use pucora_ce.Base.{Option, none, some, str_eq, if◌then◌else◌}
use pucora_ce.Base.Cut.{trim}
use pucora_ce.Base.Result.{Result, ok, err}

-- `envelope`; nothing looks into the session, a map of JSON values that may be nil.
pub record Envelope (Session : Type 0) : Type 0 where
  pub url : String
  pub session : Session
  pub body : String

-- The sessions, and the JSON and the base64 codecs.
pub record Codec : Type 1 where
  pub Session : Type 0
  pub unmarshal : String → Result (Envelope Session)
  pub marshal : Envelope Session → Result String
  pub decode : String → Result String
  pub encode : String → String

pub data Event : Type 0 where
  upgrade_required : Event
  wrote : String → Event
  logged : String → Event
  closed : Event

abbrev pub handshake_message : String
handshake_message = "{\"msg\":\"Pucora WS proxy starting\"}"

abbrev pub handshake_ok : String
handshake_ok = "OK"

abbrev pub skip : String
skip = "skip empty envelope"

-- Whether the headers ask for the upgrade, by `strings.EqualFold`.
is_web_socket_upgrade : (String → String → Bool) → (connection upgrade : String) → Bool
is_web_socket_upgrade equal_fold connection upgrade =
    equal_fold connection "upgrade" && equal_fold upgrade "websocket"

module _ (K : Codec) where
  unfoldable pub on_text : Envelope K.Session → String → Result String
  on_text env t =
      if str_eq t ""
      then err skip
      else K.marshal
          (record { url = env.url; session = env.session; body = K.encode ("echo:" <> t) })

  unfoldable pub on_payload : Envelope K.Session → Result String → Result String
  unfolding on_text
  on_payload env (err e) = err e
  on_payload env (ok payload) = on_text env (trim payload)

  unfoldable pub on_envelope : Result (Envelope K.Session) → Result String
  unfolding on_payload
  on_envelope (err e) = err e
  on_envelope (ok env) = on_payload env (K.decode env.body)

  unfoldable pub multiplex_reply : String → Result String
  unfolding on_envelope
  multiplex_reply data_read = on_envelope (K.unmarshal data_read)

  -- Whether a write fails, by the number of writes before. What is read is a list of messages, at the
  -- end of which or at an error the reading fails.
  module _ (write_fails : ℕ → Bool) where
    -- The rest of the conversation after a message, by the reply to it.
    unfoldable pub on_reply : Result String → Bool → List Event → List Event → List Event
    on_reply (ok r) true more same = []
    on_reply (ok r) false more same = wrote r ∷ more
    on_reply (err e) b more same = if str_eq e skip then same else logged e ∷ same

    unfoldable pub multiplex_loop : List (Result String) → ℕ → List Event
    unfolding on_reply
    multiplex_loop [] n = []
    multiplex_loop (err e ∷ rs) n = []
    multiplex_loop (ok m ∷ rs) n =
        on_reply (multiplex_reply m) (write_fails n) (multiplex_loop rs (suc n))
          (multiplex_loop rs n)

    unfoldable pub conversation : List (Result String) → List Event
    conversation [] = []
    conversation (err e ∷ rs) = []
    conversation (ok m ∷ rs) =
        if not (str_eq m handshake_message)
        then logged m ∷ []
        else if write_fails 0
        then []
        else wrote handshake_ok ∷ multiplex_loop rs 1

    -- With whether the upgrade is asked for, and the error of accepting it.
    unfoldable pub multiplex_handler : Bool → Option String → List (Result String) → List Event
    multiplex_handler false accepted rs = upgrade_required ∷ []
    multiplex_handler true (some e) rs = []
    multiplex_handler true none rs = conversation rs ++ (closed ∷ [])

    unfoldable pub direct_loop : List (Result String) → ℕ → List Event
    direct_loop [] n = []
    direct_loop (err e ∷ rs) n = []
    direct_loop (ok m ∷ rs) n =
        let more = direct_loop rs (suc n) in if write_fails n then [] else wrote m ∷ more

    unfoldable pub direct_echo_handler : Bool → Option String → List (Result String) → List Event
    unfolding direct_loop
    direct_echo_handler false accepted rs = upgrade_required ∷ []
    direct_echo_handler true (some e) rs = []
    direct_echo_handler true none rs = direct_loop rs 0 ++ (closed ∷ [])

-- What is asked of the codecs: what one writes it reads back.
pub record IsFaithful (K : Codec) : Type 0 where
  pub envelope :
      (e : Envelope K.Session) → (r : String) × (K.marshal e ≡ ok r) × (K.unmarshal r ≡ ok e)
  pub text : (s : String) → K.decode (K.encode s) ≡ ok s
