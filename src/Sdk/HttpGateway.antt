-- ===== src/Sdk/HttpGateway.antt =====
-- What the gateways call of grpc-gateway's runtime, of grpc and of net/http, with a mux whose options
-- are fixed. `Writer` is the response as far as it is written.
use veranatest.Prelude.{Bytes, Error, Outcome}

pub record GatewayRuntime (Message : Type 0) : Type 1 where
  pub Context : Type 0
  pub Request : Type 0
  pub Marshaler : Type 0
  pub Form : Type 0
  pub Writer : Type 0
  -- Headers and trailers.
  pub Metadata : Type 0
  pub no_metadata : Metadata
  pub join_metadata : Metadata → Metadata → Metadata
  pub request_context : Request → Context
  pub with_cancel : Context → Context
  pub with_server_transport_stream : Context → Context
  pub with_server_metadata : Context → Metadata → Context
  pub marshaler_for_request : Request → Marshaler × Marshaler
  pub annotate_context : Context → Request → Outcome Context
  pub annotate_incoming_context : Context → Request → Outcome Context
  pub parse_form : Request → Outcome Form
  -- `runtime.String`
  pub parse_string : Bytes → Outcome Bytes
  -- `runtime.HTTPError` and `runtime.ForwardResponseMessage`
  pub http_error : Context → Marshaler → Request → Error → Writer → Writer
  pub forward_response_message : Context → Marshaler → Request → Message → Writer → Writer

-- `grpc.Dial` and the connection.
pub record Dialer : Type 1 where
  pub Conn : Type 0
  pub dial : Bytes → Outcome Conn
