-- ===== src/Demo/Graphql.antt =====
-- examples/graphql/mock-backend/main.go: the mocked GraphQL services.
use pucora_ce.Base.{String, not, List}
use pucora_ce.Base.{Option, none, str_eq, if◌then◌else◌}
use pucora_ce.Base.Cut.{has}
use pucora_ce.Base.Dict.{Dict, lookup}
use pucora_ce.Base.Json.{Fields, str, num, obj, field, end}
use pucora_ce.Base.Result.{Result, ok, err}
use pucora_ce.Harness.Mock.{first_or_empty}

-- `graphQLRequest`, with `none` for nil variables.
pub record GraphqlRequest : Type 0 where
  pub query : String
  pub operation_name : String
  pub variables : Option Fields

pub record Request : Type 0 where
  pub method : String
  pub query : Dict (List String)
  -- What reading the body gives.
  pub body : Result String

-- `json.Unmarshal` fills what it can, also beside an error: it takes the value that it fills.
pub record Codec : Type 0 where
  pub fill_variables : String → Option Fields → Option Fields
  pub fill_request : String → GraphqlRequest → GraphqlRequest
  pub marshal : GraphqlRequest → String

abbrev pub empty : GraphqlRequest
empty = record { query = ""; operation_name = ""; variables = none }

-- `writeGraphQLResponse` with the data, or an error with the status 400. The lines that are logged are
-- left out.
pub data Reply : Type 0 where
  graphql_response : Fields → Reply
  bad_request : String → Reply

abbrev pong : Fields
pong = field "ping" (str "pong") end

abbrev hero : Fields
hero = field "hero" (obj (field "name" (str "Luke") end)) end

abbrev review : Fields
review =
    field "createReview" (obj (field "stars" (num "5") (field "commentary" (str "ok") end))) end

abbrev user : Fields
user = field "user" (obj (field "name" (str "Alice") end)) end

abbrev metadata : Fields
metadata = field "metadata" (obj (field "locale" (str "en-US") end)) end

module _ (K : Codec) where
  parameter : Request → String → String
  parameter r key = first_or_empty (lookup key r.query)

  from_query : Request → GraphqlRequest
  unfolding parameter
  from_query r = record {
    query = parameter r "query";
    operation_name = parameter r "operationName";
    variables =
        if not (str_eq (parameter r "variables") "")
        then K.fill_variables (parameter r "variables") none
        else none;
  }

  from_body : Result String → Result (GraphqlRequest × String)
  from_body (ok body) = ok (K.fill_request body empty, body)
  from_body (err e) = err e

  unfoldable pub read_graphql_request : Request → Result (GraphqlRequest × String)
  unfolding from_query from_body
  read_graphql_request r =
      if str_eq r.method "GET"
      then ok (from_query r, K.marshal (from_query r))
      else from_body r.body

  -- By the names in the query, the mutation first.
  chosen : String → Reply
  chosen query =
      graphql_response
        (if has query "createReview" then review else if has query "Hero" then hero else pong)

  on_request : (GraphqlRequest → Reply) → Result (GraphqlRequest × String) → Reply
  on_request f (ok (q, raw)) = f q
  on_request f (err e) = bad_request e

  unfoldable pub graphql_handler : Request → Reply
  unfolding on_request chosen
  graphql_handler r = on_request (λ q. chosen q.query) (read_graphql_request r)

  unfoldable pub user_subgraph_handler : Request → Reply
  unfolding on_request
  user_subgraph_handler r = on_request (λ q. graphql_response user) (read_graphql_request r)

  unfoldable pub metadata_subgraph_handler : Request → Reply
  unfolding on_request
  metadata_subgraph_handler r = on_request (λ q. graphql_response metadata) (read_graphql_request r)
