-- ===== src/Gateway/Responses.antt =====
-- What the gateways write: one message or one error for a request, and the record of an onboarded
-- validator for its index.
use veranatest.Registry.Lookups.{get_validator-onboard}
use veranatest.Registry.Handlers.{new_validator, onboard_validator}
use veranatest.Registry.Queries.{get_validator}
use veranatest.Registry.Types.{Keeper, MsgOnboardValidator, State, Validator}
use veranatest.Sdk.Collections.{Pages}
use veranatest.Gateway.Registry.{
  Reply, Service, get_validator_handler, list_validator_handler, local_get_validator_handler,
  local_list_validator_handler, local_params_handler, local_request_get_validator, params_handler,
  query_server, register_query_handler_client, register_query_handler_server, reply,
  validator_reply, word_index,
}
use veranatest.Prelude.{
  All, Bytes, Error, Exec, List, Outcome, [], ap, err, inl, inr, ok, panicked, refl, some, ◌++◌,
  ◌>>=◌, ◌∙◌, ◌∷◌, ◌≡◌, ◌⊎◌,
}
use veranatest.Sdk.HttpGateway.{GatewayRuntime}
use veranatest.Gateway.{
  Answer, PathParams, Pattern, Route, answer, answer_locally, answer_remotely, handle, respond,
}

module _ {Message : Type 0} (g : GatewayRuntime Message) where
  -- What a handler has done with a request: written one message, or one error, or panicked.
  abbrev pub Responded : g.Request → g.Writer → Outcome (Unit {0}) × g.Writer → Type 0
  Responded req w r =
      ((ctx : g.Context) × (resp : Message) × (r
          ≡ (ok tt, g.forward_response_message ctx (g.marshaler_for_request req).1 req resp w)))
      ⊎ (((ctx : g.Context) × (e : Error) × (r
              ≡ (ok tt, g.http_error ctx (g.marshaler_for_request req).1 req e w)))
          ⊎ (r ≡ (panicked, w)))

  pub record RespondsOnce (r : Route g) : Type 0 where
    pub at :
        (req : g.Request) (path_params : PathParams) (w : g.Writer)
        → Responded req w (r.handler req path_params w)

  respond-Responded :
      (wctx : g.Context) (req : g.Request) (r : Outcome Message) (w : g.Writer)
      → Responded req w (respond g wctx (g.marshaler_for_request req).1 req r w)
  unfolding respond
  respond-Responded wctx req (ok resp) w = inl (wctx, resp, refl)
  respond-Responded wctx req (err e) w = inr (inl (wctx, e, refl))
  respond-Responded wctx req panicked w = inr (inr refl)

  answer-Responded :
      (ctx : g.Context) (metadata_of : g.Metadata → g.Metadata) (call : g.Context → Answer g)
      (req : g.Request) (annotated : Outcome g.Context) (w : g.Writer)
      → Responded req w (answer g ctx metadata_of call req annotated w)
  unfolding answer
  answer-Responded ctx metadata_of call req (ok rctx) w =
      respond-Responded (g.with_server_metadata ctx (metadata_of (call rctx).1)) req (call rctx).0 w
  answer-Responded ctx metadata_of call req (err e) w = inr (inl (ctx, e, refl))
  answer-Responded ctx metadata_of call req panicked w = inr (inr refl)

  locally-RespondsOnce :
      (p : Pattern) (f : g.Context → g.Request → PathParams → Answer g)
      → RespondsOnce (record { pattern_of = p; handler = answer_locally g f })
  unfolding answer_locally
  locally-RespondsOnce p f = record {
    at = λ req path_params w.
        let ctx = g.with_server_transport_stream (g.with_cancel (g.request_context req)) in
        answer-Responded ctx (g.join_metadata g.no_metadata) (λ rctx. f rctx req path_params) req
          (g.annotate_incoming_context ctx req) w;
  }

  remotely-RespondsOnce :
      (p : Pattern) (f : g.Context → g.Request → PathParams → Answer g)
      → RespondsOnce (record { pattern_of = p; handler = answer_remotely g f })
  unfolding answer_remotely
  remotely-RespondsOnce p f = record {
    at = λ req path_params w.
        let ctx = g.with_cancel (g.request_context req) in
        answer-Responded ctx (λ md. md) (λ rctx. f rctx req path_params) req
          (g.annotate_context ctx req) w;
  }

All-snoc :
    {A : Type 0} (P : A → Type 0) (xs : List A) (x : A) → All P xs → P x → All P (xs ++ (x ∷ []))
All-snoc P [] x h p = (p, tt)
All-snoc P (y ∷ xs) x h p = (h.0, All-snoc P xs x h.1 p)

-- The routes that the server's or the client's registration adds to a mux answer a request with one
-- message or with one error, or panic; so do those that were there, if they did.
pub registered-RespondsOnce :
    {PageRequest PageResponse : Type 0} (g : GatewayRuntime (Reply PageResponse))
    (populate : g.Form → Outcome PageRequest) (service : Service PageRequest g)
    (routes : List (Route g))
    → All (RespondsOnce g) routes
    → All (RespondsOnce g) (register_query_handler_server PageRequest g populate service routes).1
      × All (RespondsOnce g) (register_query_handler_client PageRequest g populate service routes).1
unfolding register_query_handler_server register_query_handler_client handle local_params_handler
    local_get_validator_handler local_list_validator_handler params_handler get_validator_handler
    list_validator_handler ◌>>=◌
registered-RespondsOnce {PageRequest} g populate service routes h = (
  All-snoc _ _ _
      (All-snoc _ _ _ (All-snoc _ _ _ h (locally-RespondsOnce g _ _)) (locally-RespondsOnce g _ _))
      (locally-RespondsOnce g _ _),
  All-snoc _ _ _
      (All-snoc _ _ _ (All-snoc _ _ _ h (remotely-RespondsOnce g _ _))
        (remotely-RespondsOnce g _ _))
      (remotely-RespondsOnce g _ _),
)

module _ (k : Keeper) (pages : Pages k.validator) (g : GatewayRuntime (Reply pages.PageResponse))
    (state_of : g.Context → State k) where
  abbrev pub registry_server : Service pages.PageRequest g
  registry_server = query_server k pages state_of g.no_metadata

  local_request_lem :
      (rctx : g.Context) (req : g.Request) (path_params : PathParams) (val index : Bytes)
      → path_params word_index ≡ some val
      → g.parse_string val ≡ ok index
      → local_request_get_validator pages.PageRequest g registry_server rctx req path_params
        ≡ reply validator_reply (get_validator k (state_of rctx) (some index), g.no_metadata)
  unfolding local_request_get_validator query_server
  local_request_lem rctx req path_params val index h e = rw (local_request_get_validator, h, e) refl

  -- The contexts of a handler: before the call, and for its response where the server sets nothing.
  abbrev stream_context : g.Request → g.Context
  stream_context req = g.with_server_transport_stream (g.with_cancel (g.request_context req))

  abbrev response_context : g.Request → g.Context
  response_context req =
      g.with_server_metadata (stream_context req) (g.join_metadata g.no_metadata g.no_metadata)

  -- What the handler writes for an answer of the query.
  abbrev written : g.Request → Outcome Validator → Exec g.Writer (Unit {0})
  written req r =
      respond g (response_context req) (g.marshaler_for_request req).1 req
        (reply {M = g.Metadata} validator_reply (r, g.no_metadata)).0

  reply_metadata :
      (r : Outcome Validator)
      → (reply {M = g.Metadata} {Page = pages.PageResponse} validator_reply (r, g.no_metadata)).1
        ≡ g.no_metadata
  reply_metadata (ok v) = refl
  reply_metadata (err e) = refl
  reply_metadata panicked = refl

  handler_lem :
      (rctx : g.Context) (req : g.Request) (path_params : PathParams) (val index : Bytes)
      (w : g.Writer)
      → g.annotate_incoming_context (stream_context req) req ≡ ok rctx
      → path_params word_index ≡ some val
      → g.parse_string val ≡ ok index
      → local_get_validator_handler pages.PageRequest g registry_server req path_params w
        ≡ written req (get_validator k (state_of rctx) (some index)) w
  unfolding local_get_validator_handler answer_locally answer
  handler_lem rctx req path_params val index w annotated found parsed =
      let call = local_request_lem rctx req path_params val index found parsed in
      let silent = reply_metadata (get_validator k (state_of rctx) (some index)) in
      rw (annotated, call, silent) refl

  -- After an accepted message, a GET for its index that the keeper's own server answers, in a context
  -- with the state that the message has left, writes the record of the message, or an internal
  -- error, or panics.
  pub served-onboard :
      (msg : MsgOnboardValidator) (s : State k) (rctx : g.Context) (req : g.Request)
      (path_params : PathParams) (val : Bytes) (w : g.Writer)
      → onboard_validator k msg s ≡ (ok tt, state_of rctx)
      → g.annotate_incoming_context (stream_context req) req ≡ ok rctx
      → path_params word_index ≡ some val
      → g.parse_string val ≡ ok msg.index
      → (local_get_validator_handler pages.PageRequest g registry_server req path_params w ≡ (
        ok tt,
        g.forward_response_message
            (response_context req)
            (g.marshaler_for_request req).1
            req
            (validator_reply (new_validator msg))
            w,
      ))
        ⊎ ((local_get_validator_handler pages.PageRequest g registry_server req path_params w ≡ (
          ok tt,
          g.http_error (response_context req) (g.marshaler_for_request req).1 req Error.internal w,
        ))
            ⊎ (local_get_validator_handler pages.PageRequest g registry_server req path_params w
                ≡ (panicked, w)))
  unfolding respond
  served-onboard msg s rctx req path_params val w accepted annotated found parsed =
      let handled = handler_lem rctx req path_params val msg.index w annotated found parsed in
      elim (get_validator-onboard k msg s (state_of rctx) accepted) [
        | inl there ↦ inl (handled ∙ ap (λ r. written req r w) there)
        | inr (inl failed) ↦ inr (inl (handled ∙ ap (λ r. written req r w) failed))
        | inr (inr stopped) ↦ inr (inr (handled ∙ ap (λ r. written req r w) stopped))
      ]
