-- ===== src/Blocks/Shapes.antt =====
-- handlers/blocks.py: the converters of blocks.
use exec_rest_api.Base.{
  String, Bool, true, false, Option, none, some, List, [], ◌∷◌, ◌++◌, Text, codes, text_eq, lower,
  replicate, is_in, ◌||◌, if◌then◌else◌,
}
use exec_rest_api.Json.{
  Json, null, str, arr, obj, Fields, get, has, put, nat, list, items, or_null, get_or, truthy,
  key_error, type_error, attribute_error, Result, ok, err, ◌>>=◌,
}
use exec_rest_api.Shapes.{
  Entry, dict, to_dict, lowered, number, wei, address, required, each_of, transaction_from_rpc,
}

-- the local functions `_hex`, `_int` and `_wei`: what is no text gives the default
abbrev header_hex : Option Json → Result Json
header_hex (some (str s)) = ok (str (lower s))
header_hex v = ok (str (codes "0x"))

abbrev header_int : Option Json → Result Json
header_int (some (str s)) = number (str s)
header_int v = ok (nat 0)

abbrev header_wei : Option Json → Result Json
header_wei (some (str s)) = wei (str s)
header_wei v = ok (str (codes "0"))

abbrev miner_of : Option Json → Result Json
miner_of none = ok (str (codes "0x" ++ replicate 40 b'0'))
miner_of (some v) = address v

-- if rpc.get(k) is not None: out[k] = …
abbrev unless_absent : Text → (Json → Result Json) → Json → List Entry
unless_absent k f null = []
unless_absent k f v = (k, f v) ∷ []

abbrev header_entries : Fields → List Entry
header_entries rpc =
    let raw : String → Option Json = λ k. get rpc (codes k) in
    let hex_at : String → Entry = λ k. (codes k, header_hex (raw k)) in
    let int_at : String → Entry = λ k. (codes k, header_int (raw k)) in
    let wei_at : String → Entry = λ k. (codes k, header_wei (raw k)) in
    let later : String → (Json → Result Json) → List Entry =
      λ k f. unless_absent (codes k) f (or_null (raw k)) in
    required (obj rpc) "number" number
      ∷ required (obj rpc) "hash" lowered
      ∷ hex_at "parentHash"
      ∷ hex_at "stateRoot"
      ∷ hex_at "transactionsRoot"
      ∷ hex_at "receiptsRoot"
      ∷ hex_at "logsBloom"
      ∷ int_at "gasUsed"
      ∷ int_at "gasLimit"
      ∷ int_at "timestamp"
      ∷ (codes "miner", miner_of (raw "miner"))
      ∷ wei_at "difficulty"
      ∷ wei_at "totalDifficulty"
      ∷ hex_at "extraData"
      ∷ hex_at "mixHash"
      ∷ hex_at "nonce"
      ∷ int_at "size"
      ∷ later "baseFeePerGas" wei
    ++ later "withdrawalsRoot" lowered
    ++ later "blobGasUsed" number
    ++ later "excessBlobGas" number
    ++ later "parentBeaconBlockRoot" lowered

abbrev header_fields : Fields → Result Fields
header_fields rpc =
    if has rpc (codes "number")
    then (if has rpc (codes "hash")
        then dict (header_entries rpc)
        else err (key_error (codes "block header requires `number` and `hash`")))
    else err (key_error (codes "block header requires `number` and `hash`"))

-- `in` of a list and of a text; what is no dict has no `get`
abbrev among_items : Text → List Json → Bool
among_items k [] = false
among_items k (str s ∷ vs) = text_eq k s || among_items k vs
among_items k (v ∷ vs) = among_items k vs

abbrev no_header : Bool → Bool → Result Json
no_header true true = err attribute_error
no_header _ _ = err (key_error (codes "block header requires `number` and `hash`"))

unfoldable pub block_header_from_rpc : Json → Result Json
block_header_from_rpc (obj rpc) = do out ← header_fields rpc; ok (obj out)
block_header_from_rpc (arr vs) =
    no_header (among_items (codes "number") (items vs)) (among_items (codes "hash") (items vs))
block_header_from_rpc (str s) = no_header (is_in (codes "number") s) (is_in (codes "hash") s)
block_header_from_rpc v = err type_error

abbrev withdrawal : Json → Result Json
withdrawal w = to_dict (
    required w "index" number
    ∷ required w "validatorIndex" number
    ∷ required w "address" address
    ∷ required w "amount" wei
    ∷ [])

-- rpc.get("transactions") or []
abbrev pub transactions_of : Json → Result Json
transactions_of rpc = do
  v ← get_or rpc (codes "transactions") null
  each_of transaction_from_rpc (if truthy v then v else list [])

abbrev with_withdrawals : Json → Fields → Result Fields
with_withdrawals null out = ok out
with_withdrawals v out = do ws ← each_of withdrawal v; ok (put out (codes "withdrawals") ws)

unfoldable pub block_from_rpc : Json → Result Json
block_from_rpc (obj rpc) = do
  out ← header_fields rpc
  txs ← transactions_of (obj rpc)
  full ←
      with_withdrawals (or_null (get rpc (codes "withdrawals")))
        (put out (codes "transactions") txs)
  ok (obj full)
block_from_rpc v = block_header_from_rpc v
