-- ===== src/Sdk/Addresses.antt =====
-- Address codecs (cosmossdk.io/core/address, cosmos-sdk/types): bech32 texts and the bytes they
-- stand for. The codec itself is not modelled.
use veranatest.Prelude.{Bool, Bytes, Outcome, [], err, ok, panicked, true, ◌↔◌, ◌≡◌}

pub record AddressCodec : Type 0 where
  -- `addressCodec.StringToBytes`
  pub string_to_bytes : Bytes → Outcome Bytes
  -- `addressCodec.BytesToString`
  pub bytes_to_string : Bytes → Outcome Bytes
  -- `sdk.ValAddressFromBech32`
  pub val_address_from_bech32 : Bytes → Outcome Bytes
  -- `sdk.AccAddressFromBech32`
  pub acc_address_from_bech32 : Bytes → Outcome Bytes
  -- `sdk.AccAddress.Equals`, documented as equality of the addresses.
  pub equals : Bytes → Bytes → Bool
  pub equals_iff : (a b : Bytes) → (equals a b ≡ true) ↔ (a ≡ b)

-- `addr, _ := f(text)`: on an error the address is nil.
abbrev pub address_or_nil : Outcome Bytes → Bytes
address_or_nil (ok a) = a
address_or_nil (err e) = []
address_or_nil panicked = []
