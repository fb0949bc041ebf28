-- ===== src/Gateway.antt =====
-- The gateways of the two modules, which answer HTTP requests by the queries: what the files
-- x/validatorregistry/types/query.pb.gw.go and x/td/types/query.pb.gw.go have in common. `wctx` is
-- the context that a response is written with.
mod Registry
mod TrustDeposit
mod Responses
mod Tests
use veranatest.Prelude.{Bytes, Exec, List, Option, Outcome, [], err, ok, panicked, ℕ, ◌++◌, ◌∷◌}
use veranatest.Sdk.HttpGateway.{Dialer, GatewayRuntime}

abbrev pub PathParams : Type 0
PathParams = Bytes → Option Bytes

-- The arguments of `runtime.NewPattern`.
pub record Pattern : Type 0 where
  pub ops : List ℕ
  pub pool : List Bytes

module _ {Message : Type 0} (g : GatewayRuntime Message) where
  abbrev pub Handler : Type 0
  Handler = g.Request → PathParams → Exec g.Writer (Unit {0})

  -- A call of a request function: the message or the error, and the metadata.
  abbrev pub Answer : Type 0
  Answer = Outcome Message × g.Metadata

  -- The end of a handler.
  unfoldable pub respond :
      g.Context → g.Marshaler → g.Request → Outcome Message → Exec g.Writer (Unit {0})
  respond wctx outbound req (ok resp) w =
      (ok tt, g.forward_response_message wctx outbound req resp w)
  respond wctx outbound req (err e) w = (ok tt, g.http_error wctx outbound req e w)
  respond wctx outbound req panicked w = (panicked, w)

  -- A handler from the annotated context on: `metadata_of` gives the metadata of the response.
  unfoldable pub answer :
      g.Context
      → (g.Metadata → g.Metadata)
      → (g.Context → Answer)
      → g.Request
      → Outcome g.Context
      → Exec g.Writer (Unit {0})
  unfolding respond
  answer ctx metadata_of call req (ok rctx) w =
      let (r, md) = call rctx in
      respond (g.with_server_metadata ctx (metadata_of md)) (g.marshaler_for_request req).1 req r w
  answer ctx metadata_of call req (err e) w =
      (ok tt, g.http_error ctx (g.marshaler_for_request req).1 req e w)
  answer ctx metadata_of call req panicked w = (panicked, w)

  -- A handler that `RegisterQueryHandlerServer` registers. The metadata of the request function are
  -- empty there, and are joined with those that the server has set in the stream.
  unfoldable pub answer_locally : (g.Context → g.Request → PathParams → Answer) → Handler
  unfolding answer
  answer_locally local_request req path_params =
      let ctx = g.with_server_transport_stream (g.with_cancel (g.request_context req)) in
      answer ctx (g.join_metadata g.no_metadata) (λ rctx. local_request rctx req path_params) req
        (g.annotate_incoming_context ctx req)

  -- A handler that `RegisterQueryHandlerClient` registers.
  unfoldable pub answer_remotely : (g.Context → g.Request → PathParams → Answer) → Handler
  unfolding answer
  answer_remotely request req path_params =
      let ctx = g.with_cancel (g.request_context req) in
      answer ctx (λ md. md) (λ rctx. request rctx req path_params) req (g.annotate_context ctx req)

  -- A call of `mux.Handle` for GET; the routes of a mux stand in the order in which they were added.
  pub record Route : Type 0 where
    pub pattern_of : Pattern
    pub handler : Handler

  unfoldable pub handle : Pattern → Handler → Exec (List Route) (Unit {0})
  handle p h routes = (ok tt, routes ++ (record { pattern_of = p; handler = h } ∷ []))

  -- The mux and the connections of a process: those closed, and those that are closed when the
  -- context is done.
  pub record Endpoint (d : Dialer) : Type 0 where
    pub routes : List Route
    pub closed : List d.Conn
    pub closed_when_done : List d.Conn

  -- The deferred function of `RegisterQueryHandlerFromEndpoint`.
  unfoldable pub after_registering :
      (d : Dialer)
      → d.Conn
      → Endpoint d
      → Outcome (Unit {0}) × List Route
      → Outcome (Unit {0}) × Endpoint d
  after_registering d conn s (ok u, routes) =
      (ok tt, record s { routes = routes; closed_when_done = conn ∷ s.closed_when_done })
  after_registering d conn s (err e, routes) =
      (err e, record s { routes = routes; closed = conn ∷ s.closed })
  after_registering d conn s (panicked, routes) =
      (panicked, record s { routes = routes; closed_when_done = conn ∷ s.closed_when_done })

  -- `RegisterQueryHandlerFromEndpoint`, with the `RegisterQueryHandler` of a module.
  unfoldable pub register_from_endpoint :
      (d : Dialer) → (d.Conn → Exec (List Route) (Unit {0})) → Bytes → Exec (Endpoint d) (Unit {0})
  unfolding after_registering
  register_from_endpoint d register endpoint s = elim (d.dial endpoint) [
    | ok conn ↦ after_registering d conn s (register conn s.routes)
    | err e ↦ (err e, s)
    | panicked ↦ (panicked, s)
  ]
