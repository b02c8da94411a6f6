-- ===== src/Demo/Echo.antt =====
-- What a client of the multiplexed echo gets back.
use pucora_ce.Base.{ℕ, suc, String, ◌<>◌, Bool, true, false, List, [], ◌∷◌, ◌++◌, ◌≡◌, ◌≢◌, refl}
use pucora_ce.Base.{none, str_eq, eq_iff, arith, All, ap, ◌∙◌, map, Bool-cases, inl, inr}
use pucora_ce.Base.Cut.{trim}
use pucora_ce.Base.Result.{Result, ok}
use pucora_ce.Demo.Websocket.{
  Envelope, Codec, wrote, closed, handshake_message, handshake_ok, IsFaithful, on_text,
  multiplex_reply, multiplex_loop, conversation, multiplex_handler, on_payload, on_envelope,
}

module _ (K : Codec) (F : IsFaithful K) where
  -- The message for a text, which goes into the body of the envelope.
  abbrev pub sent : Envelope K.Session → String
  sent e = (F.envelope (record e { body = K.encode e.body })).0

  -- A message is the echo of an envelope with a text: the same URL and session, and the text after
  -- `echo:`, without the space around it.
  pub record IsEcho (e : Envelope K.Session) (r : String) : Type 0 where
    pub out : Envelope K.Session
    pub read : K.unmarshal r ≡ ok out
    pub url : out.url ≡ e.url
    pub session : out.session ≡ e.session
    pub body : K.decode out.body ≡ ok ("echo:" <> trim e.body)

  abbrev pub AreEchoes : List (Envelope K.Session) → List String → Type 0
  AreEchoes [] [] = Unit
  AreEchoes [] (r ∷ rs) = ⊥
  AreEchoes (e ∷ es) [] = ⊥
  AreEchoes (e ∷ es) (r ∷ rs) = IsEcho e r × AreEchoes es rs

  abbrev pub IsBlank : Envelope K.Session → Type 0
  IsBlank e = trim e.body ≡ ""

  not_blank : (t : String) → t ≢ "" → str_eq t "" ≡ false
  not_blank t h = elim (Bool-cases (str_eq t "")) [
    | inl e ↦ absurd (h ((eq_iff t "").0 e))
    | inr e ↦ e
  ]

  on_text_lem :
      (env : Envelope K.Session) (t : String)
      → t ≢ ""
      → on_text K env t ≡ K.marshal (record env { body = K.encode ("echo:" <> t) })
  unfolding on_text
  on_text_lem env t h = ground (arith, not_blank t h)

  multiplex_reply_lem :
      (e : Envelope K.Session)
      → ¬ IsBlank e
      → multiplex_reply K (sent e)
        ≡ K.marshal (record e { body = K.encode ("echo:" <> trim e.body) })
  unfolding multiplex_reply
  multiplex_reply_lem e h =
      let env = record e { body = K.encode e.body } in
      ap (on_envelope K) (F.envelope env).2
      ∙ (ap (on_payload K env) (F.text e.body) ∙ on_text_lem env (trim e.body) h)

  multiplex_reply-IsEcho :
      (e : Envelope K.Session)
      → ¬ IsBlank e
      → (r : String) × (multiplex_reply K (sent e) ≡ ok r) × IsEcho e r
  multiplex_reply-IsEcho e h =
      let out = record e { body = K.encode ("echo:" <> trim e.body) } in
      let (r, written, read) = F.envelope out in
      (
        r,
        multiplex_reply_lem e h ∙ written,
        record {
          out = out;
          read = read;
          url = refl;
          session = refl;
          body = F.text ("echo:" <> trim e.body);
        },
      )

  module _ (write_fails : ℕ → Bool) (writable : (n : ℕ) → write_fails n ≡ false) where
    abbrev pub incoming : List (Envelope K.Session) → List (Result String)
    incoming es = map (λ e. ok (sent e)) es

    loop-echo :
        (es : List (Envelope K.Session)) (n : ℕ)
        → All (λ e. ¬ IsBlank e) es
        → (rs : List String) × (multiplex_loop K write_fails (incoming es) n ≡ map wrote rs)
          × AreEchoes es rs
    unfolding multiplex_loop
    loop-echo [] n h = ([], refl, tt)
    loop-echo (e ∷ es) n (h, hs) =
        let (rs, more, echoes) = loop-echo es (suc n) hs in
        let (r, reply, echo) = multiplex_reply-IsEcho e h in
        (r ∷ rs, rw (reply, writable n, more) refl, (echo, echoes))

    conversation_lem :
        (rs : List (Result String))
        → conversation K write_fails (ok handshake_message ∷ rs)
          ≡ wrote handshake_ok ∷ multiplex_loop K write_fails rs 1
    unfolding conversation
    conversation_lem rs = rw (writable 0) refl

    -- Where the codecs read back what they write (`IsFaithful`) and every write of the server
    -- succeeds, a client that is upgraded, sends the handshake and then envelopes whose texts are not
    -- blank gets `OK` and then the echo of each, in their order, with the URL and the session that it
    -- sent; at the end of its messages the connection is closed.
    pub multiplex_handler-echo :
        (es : List (Envelope K.Session))
        → All (λ e. ¬ IsBlank e) es
        → (rs : List String) × (multiplex_handler K write_fails true none
              (ok handshake_message ∷ incoming es)
            ≡ wrote handshake_ok ∷ (map wrote rs ++ (closed ∷ [])))
          × AreEchoes es rs
    unfolding multiplex_handler
    multiplex_handler-echo es h =
        let (rs, more, echoes) = loop-echo es 1 h in
        (
          rs,
          ap (λ l. l ++ (closed ∷ [])) (conversation_lem (incoming es))
              ∙ ap (λ l. wrote handshake_ok ∷ (l ++ (closed ∷ []))) more,
          echoes,
        )
