-- ===== src/Executor/Rejecter.antt =====
-- executor.go: `BloomFilterJWT.NewTokenRejecter`, the default `TokenRejecterFactory`.
use pucora_ce.Base.{
  Bool, true, false, ◌||◌, List, [], ◌∷◌, ◌≡◌, ◌↔◌, ◌⊎◌, Option, none, some, arith,
}
use pucora_ce.Executor.Collaborators.{Problem}

-- The token validation's rejecters on the tokens of an endpoint: what `pucorabf.Register` returned,
-- the rejecter of the endpoint's CEL rules, which may be nil, and the chain of several rejecters.
pub record RejecterLibraries : Type 1 where
  pub Endpoint : Type 0
  pub Token : Type 0
  pub reject_token : Token → Bool
  pub register_error : Option Problem
  pub new_cel_rejecter : Endpoint → Option (Token → Bool)
  pub chained : List (Endpoint → Token → Bool) → Endpoint → Token → Bool

module _ (L : RejecterLibraries) where
  open L use {Endpoint, Token}

  -- The second factory: the CEL rejecter, or the fixed one that accepts.
  cel_rejects : Option (Token → Bool) → Token → Bool
  cel_rejects (some r) t = r t
  cel_rejects none t = false

  -- The chain, which is returned beside an error too.
  unfoldable pub new_token_rejecter : (Endpoint → Token → Bool) × Option Problem
  unfolding cel_rejects
  new_token_rejecter = (
    L.chained ((λ e t. L.reject_token t) ∷ (λ e t. cel_rejects (L.new_cel_rejecter e) t) ∷ []),
    L.register_error,
  )

  -- What a chain of rejecters does: it rejects what one of them rejects.
  abbrev pub any_rejects : List (Endpoint → Token → Bool) → Endpoint → Token → Bool
  any_rejects [] e t = false
  any_rejects (f ∷ fs) e t = f e t || any_rejects fs e t

  -- Where a chain rejects what one of its rejecters rejects, a token of an endpoint is rejected
  -- exactly if the bloom filter has it, or the endpoint has CEL rules that reject it.
  new_token_rejecter_iff :
      ((fs : List (Endpoint → Token → Bool)) (e : Endpoint) (t : Token)
        → L.chained fs e t ≡ any_rejects fs e t)
      → (e : Endpoint) (t : Token)
      → (new_token_rejecter.0 e t ≡ true) ↔ (
          (L.reject_token t ≡ true)
          ⊎ ((r : Token → Bool) × (L.new_cel_rejecter e ≡ some r) × (r t ≡ true)))
  unfolding new_token_rejecter
  new_token_rejecter_iff chain e t = ground (
    arith,
    chain ((λ e t. L.reject_token t) ∷ (λ e t. cel_rejects (L.new_cel_rejecter e) t) ∷ []) e t,
  )
