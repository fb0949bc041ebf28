-- ===== src/Gateway/TrustDeposit.antt =====
-- The gateway of x/td: types/query.pb.gw.go, and the query that it calls, keeper/query_params.go.
use veranatest.Export.{must}
use veranatest.Prelude.{
  Bytes, Error, Exec, List, Option, Outcome, [], ascii, err, none, ok, panicked, some, ◌∷◌,
}
use veranatest.Sdk.HttpGateway.{Dialer, GatewayRuntime}
use veranatest.Sdk.Decimal.{Decimals}
use veranatest.Gateway.{
  Answer, Endpoint, Handler, PathParams, Pattern, Route, answer_locally, answer_remotely, handle,
  register_from_endpoint,
}
use veranatest.TrustDeposit.Types.{Keeper, Params, State}

-- `Params`; a missing value is answered by the zero `Params`, and `none` is a nil request.
unfoldable pub query_td_params :
    (k : Keeper) → Params k.dec → State k → Option (Unit {0}) → Outcome (Params k.dec)
query_td_params k zero_params s none = err Error.invalid_argument
query_td_params k zero_params s (some req) = elim (k.params.get s.params) [
  | ok p ↦ ok p
  | err Error.not_found ↦ ok zero_params
  | err e ↦ err Error.internal
  | panicked ↦ panicked
]

abbrev pub td_pattern_params : Pattern
td_pattern_params = record {
  ops = 2 ∷ 0 ∷ 2 ∷ 1 ∷ 2 ∷ 2 ∷ 2 ∷ 3 ∷ [];
  pool = ascii "veranatest" ∷ ascii "td" ∷ ascii "v1" ∷ ascii "params" ∷ [];
}

module _ {dec : Decimals} (g : GatewayRuntime (Params dec)) where
  -- `QueryServer`, and `QueryClient`: the answer and the metadata.
  abbrev pub TdQueries : Type 0
  TdQueries = g.Context → Outcome (Params dec) × g.Metadata

  unfoldable pub td_request_params : TdQueries → g.Context → g.Request → PathParams → Answer g
  td_request_params client ctx req path_params = client ctx

  unfoldable pub td_local_request_params : TdQueries → g.Context → g.Request → PathParams → Answer g
  td_local_request_params server ctx req path_params = server ctx

  unfoldable pub td_local_params_handler : TdQueries → Handler g
  unfolding answer_locally td_local_request_params
  td_local_params_handler server = answer_locally g (td_local_request_params server)

  unfoldable pub td_params_handler : TdQueries → Handler g
  unfolding answer_remotely td_request_params
  td_params_handler client = answer_remotely g (td_request_params client)

  unfoldable pub td_register_query_handler_server : TdQueries → Exec (List (Route g)) (Unit {0})
  unfolding handle td_local_params_handler
  td_register_query_handler_server server =
      handle g td_pattern_params (td_local_params_handler server)

  unfoldable pub td_register_query_handler_client : TdQueries → Exec (List (Route g)) (Unit {0})
  unfolding handle td_params_handler
  td_register_query_handler_client client = handle g td_pattern_params (td_params_handler client)

  -- `RegisterGRPCGatewayRoutes` of module/module.go, for the query client of a context.
  unfoldable pub td_register_grpc_gateway_routes : TdQueries → Exec (List (Route g)) (Unit {0})
  unfolding td_register_query_handler_client
  td_register_grpc_gateway_routes query_client =
      must (td_register_query_handler_client query_client)

  module _ (d : Dialer) (new_query_client : d.Conn → TdQueries) where
    unfoldable pub td_register_query_handler : d.Conn → Exec (List (Route g)) (Unit {0})
    unfolding td_register_query_handler_client
    td_register_query_handler conn = td_register_query_handler_client (new_query_client conn)

    unfoldable pub td_register_query_handler_from_endpoint : Bytes → Exec (Endpoint g d) (Unit {0})
    unfolding register_from_endpoint td_register_query_handler
    td_register_query_handler_from_endpoint endpoint =
        register_from_endpoint g d td_register_query_handler endpoint
