-- ===== src/Gateway/Registry.antt =====
-- The gateway of x/validatorregistry: types/query.pb.gw.go. The request functions do not use the
-- inbound marshaler that they are given. A call of the client or the server gives its answer and the
-- metadata: what the client has received, or what the server has set in the stream.
use veranatest.Sdk.Collections.{Pages}
use veranatest.Registry.Queries
use veranatest.Export.{must}
use veranatest.Prelude.{
  Bytes, Error, Exec, List, Outcome, [], ascii, err, none, ok, panicked, some, ◌>>◌, ◌∷◌,
}
use veranatest.Sdk.HttpGateway.{Dialer, GatewayRuntime}
use veranatest.Gateway.{
  Answer, Endpoint, Handler, PathParams, Pattern, Route, answer_locally, answer_remotely, handle,
  register_from_endpoint,
}
use veranatest.Registry.Types.{Keeper, Params, State, Validator}

-- The messages that the queries answer.
pub data Reply (PageResponse : Type 0) : Type 0 where
  params_reply : Params → Reply PageResponse
  validator_reply : Validator → Reply PageResponse
  validators_reply : List Validator × PageResponse → Reply PageResponse

-- `QueryServer`, and `QueryClient`.
pub record QueryService (Context Metadata PageRequest PageResponse : Type 0) : Type 0 where
  pub params : Context → Outcome Params × Metadata
  pub get_validator : Context → Bytes → Outcome Validator × Metadata
  pub list_validator : Context → PageRequest → Outcome (List Validator × PageResponse) × Metadata

-- `return msg, metadata, err`
abbrev pub reply : {A M Page : Type 0} → (A → Reply Page) → Outcome A × M → Outcome (Reply Page) × M
reply make (ok a, md) = (ok (make a), md)
reply make (err e, md) = (err e, md)
reply make (panicked, md) = (panicked, md)

abbrev pub pattern_params : Pattern
pattern_params = record {
  ops = 2 ∷ 0 ∷ 2 ∷ 1 ∷ 2 ∷ 2 ∷ 2 ∷ 3 ∷ [];
  pool = ascii "veranatest" ∷ ascii "validatorregistry" ∷ ascii "v1" ∷ ascii "params" ∷ [];
}

abbrev pub pattern_get_validator : Pattern
pattern_get_validator = record {
  ops = 2 ∷ 0 ∷ 2 ∷ 1 ∷ 2 ∷ 2 ∷ 2 ∷ 3 ∷ 1 ∷ 0 ∷ 4 ∷ 1 ∷ 5 ∷ 4 ∷ [];
  pool =
      ascii "veranatest"
      ∷ ascii "validatorregistry"
      ∷ ascii "v1"
      ∷ ascii "validator"
      ∷ ascii "index"
      ∷ [];
}

abbrev pub pattern_list_validator : Pattern
pattern_list_validator = record {
  ops = 2 ∷ 0 ∷ 2 ∷ 1 ∷ 2 ∷ 2 ∷ 2 ∷ 3 ∷ [];
  pool = ascii "veranatest" ∷ ascii "validatorregistry" ∷ ascii "v1" ∷ ascii "validator" ∷ [];
}

abbrev pub word_index : Bytes
word_index = ascii "index"

module _ (PageRequest : Type 0) {PageResponse : Type 0}
    (g : GatewayRuntime (Reply PageResponse)) where
  abbrev pub Service : Type 0
  Service = QueryService g.Context g.Metadata PageRequest PageResponse

  unfoldable pub request_params : Service → g.Context → g.Request → PathParams → Answer g
  request_params client ctx req path_params = reply params_reply (client.params ctx)

  unfoldable pub local_request_params : Service → g.Context → g.Request → PathParams → Answer g
  local_request_params server ctx req path_params = reply params_reply (server.params ctx)

  unfoldable pub request_get_validator : Service → g.Context → g.Request → PathParams → Answer g
  request_get_validator client ctx req path_params = elim (path_params word_index) [
    | none ↦ (err Error.invalid_argument, g.no_metadata)
    | some val ↦ elim (g.parse_string val) [
      | ok index ↦ reply validator_reply (client.get_validator ctx index)
      | err e ↦ (err Error.invalid_argument, g.no_metadata)
      | panicked ↦ (panicked, g.no_metadata)
    ]
  ]

  unfoldable pub local_request_get_validator :
      Service → g.Context → g.Request → PathParams → Answer g
  local_request_get_validator server ctx req path_params = elim (path_params word_index) [
    | none ↦ (err Error.invalid_argument, g.no_metadata)
    | some val ↦ elim (g.parse_string val) [
      | ok index ↦ reply validator_reply (server.get_validator ctx index)
      | err e ↦ (err Error.invalid_argument, g.no_metadata)
      | panicked ↦ (panicked, g.no_metadata)
    ]
  ]

  -- The handlers that call the server.
  unfoldable pub local_params_handler : Service → Handler g
  unfolding answer_locally local_request_params
  local_params_handler server = answer_locally g (local_request_params server)

  unfoldable pub local_get_validator_handler : Service → Handler g
  unfolding answer_locally local_request_get_validator
  local_get_validator_handler server = answer_locally g (local_request_get_validator server)

  -- The handlers that call the client.
  unfoldable pub params_handler : Service → Handler g
  unfolding answer_remotely request_params
  params_handler client = answer_remotely g (request_params client)

  unfoldable pub get_validator_handler : Service → Handler g
  unfolding answer_remotely request_get_validator
  get_validator_handler client = answer_remotely g (request_get_validator client)

  -- `PopulateQueryParameters` sets the fields of the request from the form.
  module _ (populate_query_parameters : g.Form → Outcome PageRequest) where
    unfoldable pub request_list_validator : Service → g.Context → g.Request → PathParams → Answer g
    request_list_validator client ctx req path_params = elim (g.parse_form req) [
      | ok form ↦ elim (populate_query_parameters form) [
        | ok proto_req ↦ reply validators_reply (client.list_validator ctx proto_req)
        | err e ↦ (err Error.invalid_argument, g.no_metadata)
        | panicked ↦ (panicked, g.no_metadata)
      ]
      | err e ↦ (err Error.invalid_argument, g.no_metadata)
      | panicked ↦ (panicked, g.no_metadata)
    ]

    unfoldable pub local_request_list_validator :
        Service → g.Context → g.Request → PathParams → Answer g
    local_request_list_validator server ctx req path_params = elim (g.parse_form req) [
      | ok form ↦ elim (populate_query_parameters form) [
        | ok proto_req ↦ reply validators_reply (server.list_validator ctx proto_req)
        | err e ↦ (err Error.invalid_argument, g.no_metadata)
        | panicked ↦ (panicked, g.no_metadata)
      ]
      | err e ↦ (err Error.invalid_argument, g.no_metadata)
      | panicked ↦ (panicked, g.no_metadata)
    ]

    unfoldable pub local_list_validator_handler : Service → Handler g
    unfolding answer_locally local_request_list_validator
    local_list_validator_handler server = answer_locally g (local_request_list_validator server)

    unfoldable pub list_validator_handler : Service → Handler g
    unfolding answer_remotely request_list_validator
    list_validator_handler client = answer_remotely g (request_list_validator client)

    -- `RegisterQueryHandlerServer`
    unfoldable pub register_query_handler_server : Service → Exec (List (Route g)) (Unit {0})
    unfolding handle local_params_handler local_get_validator_handler local_list_validator_handler
    register_query_handler_server server = do
      handle g pattern_params (local_params_handler server)
      handle g pattern_get_validator (local_get_validator_handler server)
      handle g pattern_list_validator (local_list_validator_handler server)

    -- `RegisterQueryHandlerClient`
    unfoldable pub register_query_handler_client : Service → Exec (List (Route g)) (Unit {0})
    unfolding handle params_handler get_validator_handler list_validator_handler
    register_query_handler_client client = do
      handle g pattern_params (params_handler client)
      handle g pattern_get_validator (get_validator_handler client)
      handle g pattern_list_validator (list_validator_handler client)

    -- `RegisterGRPCGatewayRoutes` of module/module.go, for the query client of a context.
    unfoldable pub register_grpc_gateway_routes : Service → Exec (List (Route g)) (Unit {0})
    unfolding register_query_handler_client
    register_grpc_gateway_routes query_client = must (register_query_handler_client query_client)

    -- `RegisterQueryHandler` and `RegisterQueryHandlerFromEndpoint`, with `NewQueryClient`.
    module _ (d : Dialer) (new_query_client : d.Conn → Service) where
      unfoldable pub register_query_handler : d.Conn → Exec (List (Route g)) (Unit {0})
      unfolding register_query_handler_client
      register_query_handler conn = register_query_handler_client (new_query_client conn)

      unfoldable pub register_query_handler_from_endpoint : Bytes → Exec (Endpoint g d) (Unit {0})
      unfolding register_from_endpoint register_query_handler
      register_query_handler_from_endpoint endpoint =
          register_from_endpoint g d register_query_handler endpoint

-- The queries of the keeper as a server: the store stands in the context, and nothing is set in the
-- stream.
unfoldable pub query_server :
    (k : Keeper) (pages : Pages k.validator) {Context Metadata : Type 0}
    → (Context → State k)
    → Metadata
    → QueryService Context Metadata pages.PageRequest pages.PageResponse
unfolding Queries.get_validator Queries.list_validator Queries.query_params
query_server k pages state_of nothing = record {
  params = λ ctx. (Queries.query_params k (state_of ctx) (some tt), nothing);
  get_validator = λ ctx index. (Queries.get_validator k (state_of ctx) (some index), nothing);
  list_validator = λ ctx req. (Queries.list_validator k pages (state_of ctx) (some req), nothing);
}
