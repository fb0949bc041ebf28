-- ===== src/Registry/Module/Tests.antt =====
-- The genesis of a registry with one record, in a text form, and the theorem there.
use veranatest.Registry.Module.Passage.{genesis_json_passes}
use veranatest.Registry.Module.{export_genesis_json, init_genesis_json, validate_genesis_json}
use veranatest.Registry.Genesis.{append_validator, export_genesis, init_genesis}
use veranatest.Registry.Types.{GenesisState, Keeper, Params, State, Validator, empty_params}
use veranatest.Export.{must}
use veranatest.Sdk.Addresses.{AddressCodec}
use veranatest.Sdk.Instances.{
  find_value, item_get, list_map, list_map-IsReadable, newest, option_item,
}
use veranatest.Sdk.Modules.{JsonCodec}
use veranatest.Prelude.{
  Bool-cases, Bytes, Error, List, Outcome, [], ap, ascii, bytes_eq, bytes_eq_iff, bytes_eq→eq, err,
  inl, inr, length, lift, none, ok, ok_injective, pure, refl, some, suc, sym, zero, ℕ, ◌++◌, ◌>>=◌,
  ◌∙◌, ◌∷◌, ◌≡◌,
}

-- A field is its length and its bytes.
put_text : Bytes → Bytes → Bytes
put_text b rest = length b ∷ (b ++ rest)

split : ℕ → Bytes → Bytes × Bytes
split zero l = ([], l)
split (suc n) [] = ([], [])
split (suc n) (x ∷ l) = let r = split n l in (x ∷ r.0, r.1)

split_append : (b rest : Bytes) → split (length b) (b ++ rest) ≡ (b, rest)
unfolding split
split_append [] rest = refl
split_append (x ∷ b) rest = ap (λ (r : Bytes × Bytes). (x ∷ r.0, r.1)) (split_append b rest)

read_text : {A : Type 0} → Bytes → (Bytes → Bytes → Outcome A) → Outcome A
read_text [] k = err Error.not_found
read_text (n ∷ l) k = let r = split n l in k r.0 r.1

read-put :
    {A : Type 0} (b rest : Bytes) (k : Bytes → Bytes → Outcome A)
    → read_text (put_text b rest) k ≡ k b rest
unfolding read_text put_text
read-put b rest k = ap (λ (r : Bytes × Bytes). k r.0 r.1) (split_append b rest)

write_validator : Validator → Bytes
write_validator v = put_text v.index (
    put_text v.member_id (
      put_text v.operator_address
        (put_text v.consensus_pubkey (put_text v.status (put_text (v.term_end ∷ []) [])))))

one : (index member operator key status term : Bytes) → Outcome GenesisState
one index member operator key status [] = err Error.not_found
one index member operator key status (n ∷ rest) = ok (record {
  params = empty_params;
  validator_map =
      record {
        index = index;
        member_id = member;
        operator_address = operator;
        consensus_pubkey = key;
        status = status;
        term_end = n;
      }
      ∷ [];
})

read_validator : Bytes → Outcome GenesisState
read_validator b = read_text b λ index b1. read_text b1 λ member b2. read_text b2 λ operator b3.
    read_text b3 λ key b4.
      read_text b4 λ status b5. read_text b5 λ term b6. one index member operator key status term

read-write :
    (v : Validator)
    → read_validator (write_validator v)
      ≡ ok (record { params = empty_params; validator_map = v ∷ [] })
unfolding read_validator write_validator one
read-write v =
    read-put v.index _ _
    ∙ (read-put v.member_id _ _
        ∙ (read-put v.operator_address _ _
            ∙ (read-put v.consensus_pubkey _ _
                ∙ (read-put v.status _ _ ∙ read-put (v.term_end ∷ []) _ _))))

-- Only states of one record have a text.
write_state : Params → List Validator → Outcome Bytes
write_state empty_params (v ∷ []) = ok (write_validator v)
write_state _ _ = err Error.not_found

read-write_state :
    (p : Params) (l : List Validator) (b : Bytes)
    → write_state p l ≡ ok b
    → read_validator b ≡ ok (record { params = p; validator_map = l })
unfolding write_state
read-write_state empty_params [] b h = cc
read-write_state empty_params (v ∷ []) b h = ap read_validator (sym (ok_injective h)) ∙ read-write v
read-write_state empty_params (v ∷ w ∷ l) b h = cc

abbrev json : JsonCodec GenesisState
json = record {
  marshal_json = λ gs. write_state gs.params gs.validator_map;
  unmarshal_json = read_validator;
  unmarshal_marshal = λ gs b h. read-write_state gs.params gs.validator_map b h;
}

decode : Bytes → Outcome Bytes
decode a = ok a

abbrev codec : AddressCodec
codec = record {
  string_to_bytes = decode;
  bytes_to_string = decode;
  val_address_from_bech32 = decode;
  acc_address_from_bech32 = decode;
  equals = bytes_eq;
  equals_iff = bytes_eq_iff;
}

abbrev keeper : Keeper
keeper = record {
  address_codec = codec;
  authority = ascii "gov";
  params = option_item Params;
  validator = list_map Validator;
}

abbrev validator : Validator
validator = record {
  index = ascii "v1";
  member_id = ascii "m";
  operator_address = ascii "op1";
  consensus_pubkey = [];
  status = ascii "active";
  term_end = 7;
}

abbrev before : State keeper
before = record {
  params = some empty_params;
  validator = (ascii "v1", validator) ∷ [];
  events = [];
}

abbrev fresh : State keeper
fresh = record { params = none; validator = []; events = [] }

run_export : export_genesis_json json keeper before ≡ ok (write_validator validator)
unfolding export_genesis_json export_genesis item_get newest append_validator write_state
run_export = refl

run_init : init_genesis_json json keeper (write_validator validator) fresh ≡ (ok tt, before)
unfolding init_genesis_json must lift ◌>>=◌ pure init_genesis read_validator write_validator
    read_text put_text split one
run_init = refl

keyed : (key : Bytes) (v : Validator) → find_value before.validator key ≡ some v → v.index ≡ key
unfolding find_value
keyed key v h = elim (Bool-cases (bytes_eq (ascii "v1") key)) [
  | inl e ↦
      let found = rw (find_value, e) at h in
      let same : validator ≡ v = cc in
      ap (λ (x : Validator). x.index) (sym same) ∙ bytes_eq→eq (ascii "v1") key e
  | inr e ↦ absurd (let bad = rw (find_value, e) at h in cc)
]

nothing : (key : Bytes) → find_value {V = Validator} [] key ≡ none
unfolding find_value
nothing key = refl

genesis_json_passes_example :
    (validate_genesis_json json (write_validator validator) ≡ ok tt)
    × ((key : Bytes) → find_value before.validator key ≡ find_value before.validator key)
    × (some empty_params ≡ some empty_params)
genesis_json_passes_example =
    genesis_json_passes json keeper before fresh before (write_validator validator)
      (list_map-IsReadable Validator before.validator) keyed nothing run_export run_init
