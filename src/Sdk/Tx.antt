-- ===== src/Sdk/Tx.antt =====
-- Transactions and ante handlers (cosmos-sdk/types), as far as the chain's decorators use them.
use veranatest.Prelude.{Bool, Bytes, Exec, List, ℕ, ◌∷◌, ◌≡◌}

-- A message, by the Go type that the decorators look for.
pub data Msg : Type 0 where
  -- `*group.MsgExec`, with its `ProposalId`
  group_exec : ℕ → Msg
  -- `*stakingtypes.MsgCreateValidator`, with its `ValidatorAddress`
  create_validator : Bytes → Msg
  -- any other type, also one that carries messages or that may execute a proposal
  other_msg : ℕ → Msg

-- `tx.GetMsgs()`
abbrev pub Tx : Type 0
Tx = List Msg

-- `sdk.AnteHandler` over contexts `C` and the stores `S` that they give access to.
abbrev pub AnteHandler : Type 0 → Type 0 → Type 0
AnteHandler C S = C → Tx → Bool → Exec S C

-- `AnteHandle` of a decorator.
abbrev pub AnteDecorator : Type 0 → Type 0 → Type 0
AnteDecorator C S = C → Tx → Bool → AnteHandler C S → Exec S C

-- A context, the stores behind it, and `sdk.ChainAnteDecorators`.
pub record Runtime : Type 1 where
  pub Context : Type 0
  pub Stores : Type 0
  pub block_time : Context → ℕ
  pub chain_ante_decorators : List (AnteDecorator Context Stores) → AnteHandler Context Stores
  -- Each decorator gets the rest of the chain as `next`.
  pub chain_cons :
      (d : AnteDecorator Context Stores) (ds : List (AnteDecorator Context Stores)) (ctx : Context)
      (tx : Tx) (simulate : Bool) (s : Stores)
      → chain_ante_decorators (d ∷ ds) ctx tx simulate s
        ≡ d ctx tx simulate (chain_ante_decorators ds) s
