-- ===== src/Shapes.antt =====
-- handlers/transactions.py: the converters of JSON-RPC objects to their REST shapes, which the
-- handlers of blocks, logs and traces use too. A conversion that raises gives the exception.
pub mod Laws
mod Tests
use exec_rest_api.Base.{
  ℕ, String, Bool, true, false, Option, none, some, List, [], ◌∷◌, ◌++◌, ℤ, pos, negsuc, Text,
  codes, if◌then◌else◌, lower,
}
use exec_rest_api.Json.{
  Json, null, bool, int, float, str, arr, obj, Items, Fields, end, field, get, nat, list, item,
  or_null, get_or, lower_of, elements, truthy, each, Message, says, encoding_error, type_error,
  Result, ok, err, ◌>>=◌,
}
use exec_rest_api.Encoding.{
  coerce_rpc_int, hex_to_int, map_address_lowercase, rest_status_from_rpc, rest_tx_type_from_rpc,
  wei_from_rpc,
}

-- an entry of a dict that is being built: its key, and the value or the exception of computing it
abbrev pub Entry : Type 0
Entry = Text × Result Json

-- A dict from its entries, whose values are computed in this order.
unfoldable pub dict : List Entry → Result Fields
dict [] = ok end
dict ((k, r) ∷ es) = do v ← r; fs ← dict es; ok (field k v fs)

unfoldable pub to_dict : List Entry → Result Json
to_dict es = dict es >>= λ fs. ok (obj fs)

abbrev of_text : Result Text → Result Json
of_text r = r >>= λ s. ok (str s)

abbrev of_nat : Result ℕ → Result Json
of_nat r = r >>= λ n. ok (nat n)

-- x.lower(), hex_to_int(x), wei_from_rpc(x), map_address_lowercase(x)
abbrev pub lowered : Json → Result Json
lowered v = of_text (lower_of v)

abbrev pub number : Json → Result Json
number v = of_nat (hex_to_int v)

abbrev pub wei : Json → Result Json
wei v = of_text (wei_from_rpc v)

abbrev pub address : Json → Result Json
address v = of_text (map_address_lowercase v)

-- rest_tx_type_from_rpc and rest_status_from_rpc of any JSON value: a list or a dict has no hash
abbrev enumerated : (Text → Result Text) → String → Json → Result Json
enumerated f m (str s) = of_text (f s)
enumerated f m (arr vs) = err type_error
enumerated f m (obj fs) = err type_error
enumerated f m v = err (encoding_error (says m (v ∷ [])))

abbrev pub tx_type : Json → Result Json
tx_type = enumerated rest_tx_type_from_rpc "unknown transaction type: {rpc!r}"

abbrev pub status : Json → Result Json
status = enumerated rest_status_from_rpc "unknown receipt status: {rpc!r}"

-- out[k] = f(rpc[k])
abbrev pub required : Json → String → (Json → Result Json) → Entry
required rpc k f = (codes k, item rpc (codes k) >>= f)

-- f(v) if v is not None else None
abbrev pub unless_null : (Json → Result Json) → Json → Result Json
unless_null f null = ok null
unless_null f v = f v

-- f(v) if v else None
abbrev pub when_truthy : (Json → Result Json) → Json → Result Json
when_truthy f v = if truthy v then f v else ok null

-- out[k] with rpc.get(k)
abbrev pub nullable : Json → String → (Json → Result Json) → Entry
nullable rpc k f = (codes k, get_or rpc (codes k) null >>= f)

-- if k in rpc and rpc[k] is not None: out[k] = f(rpc[k])
abbrev present : Text → (Json → Result Json) → Option Json → List Entry
present k f none = []
present k f (some null) = []
present k f (some v) = (k, f v) ∷ []

abbrev pub optional : Json → String → (Json → Result Json) → List Entry
optional (obj fs) k f = present (codes k) f (get fs (codes k))
optional _ k f = []

-- [f(x) for x in v]
abbrev pub each_of : (Json → Result Json) → Json → Result Json
each_of f v = do vs ← elements v; ws ← each f vs; ok (list ws)

unfoldable pub access_entry : Json → Result Json
access_entry entry = to_dict (
    required entry "address" address
    ∷ (codes "storageKeys", get_or entry (codes "storageKeys") (list []) >>= each_of lowered)
    ∷ [])

unfoldable pub transaction_from_rpc : Json → Result Json
transaction_from_rpc rpc = to_dict (
    required rpc "type" tx_type
      ∷ required rpc "hash" lowered
      ∷ required rpc "from" address
      ∷ required rpc "nonce" number
      ∷ required rpc "gas" number
      ∷ required rpc "input" lowered
      ∷ required rpc "value" wei
      ∷ required rpc "r" lowered
      ∷ required rpc "s" lowered
      ∷ nullable rpc "blockHash" (when_truthy lowered)
      ∷ nullable rpc "blockNumber" (unless_null number)
      ∷ nullable rpc "transactionIndex" (unless_null number)
      ∷ nullable rpc "to" (unless_null address)
      ∷ optional rpc "chainId" number
    ++ optional rpc "gasPrice" wei
    ++ optional rpc "maxFeePerGas" wei
    ++ optional rpc "maxPriorityFeePerGas" wei
    ++ optional rpc "maxFeePerBlobGas" wei
    ++ optional rpc "accessList" (each_of access_entry)
    ++ optional rpc "blobVersionedHashes" (each_of lowered)
    ++ optional rpc "v" lowered
    ++ optional rpc "yParity" number)

unfoldable pub log_from_rpc : Json → Result Json
log_from_rpc rpc = to_dict (
    required rpc "address" address
    ∷ required rpc "topics" (each_of lowered)
    ∷ required rpc "data" lowered
    ∷ required rpc "blockHash" lowered
    ∷ required rpc "blockNumber" number
    ∷ required rpc "transactionHash" lowered
    ∷ required rpc "transactionIndex" number
    ∷ required rpc "logIndex" number
    ∷ (codes "removed", get_or rpc (codes "removed") (bool false) >>= λ v. ok (bool (truthy v)))
    ∷ [])

unfoldable pub receipt_from_rpc : Json → Result Json
receipt_from_rpc rpc = to_dict (
    required rpc "transactionHash" lowered
      ∷ required rpc "transactionIndex" number
      ∷ required rpc "blockHash" lowered
      ∷ required rpc "blockNumber" number
      ∷ required rpc "from" address
      ∷ required rpc "cumulativeGasUsed" number
      ∷ required rpc "gasUsed" number
      ∷ required rpc "logsBloom" lowered
      ∷ (codes "logs", get_or rpc (codes "logs") (list []) >>= each_of log_from_rpc)
      ∷ required rpc "status" status
      ∷ required rpc "type" tx_type
      ∷ nullable rpc "to" (unless_null address)
      ∷ nullable rpc "contractAddress" (unless_null address)
      ∷ optional rpc "effectiveGasPrice" wei
    ++ optional rpc "blobGasUsed" number
    ++ optional rpc "blobGasPrice" wei)

-- `int(x)` of Python on a JSON value is a parameter.
module _ (python_int : Json → Result ℤ) where
  abbrev integer : Json → Result Json
  integer v = python_int v >>= λ z. ok (int z)

  -- hex_to_int(pos) if isinstance(pos, str) else int(pos)
  abbrev position : Json → Result Json
  position (str s) = number (str s)
  position v = integer v

  unfoldable pub trace_from_rpc : Json → Result Json
  trace_from_rpc rpc = to_dict (
      (codes "action", get_or rpc (codes "action") (obj end))
        ∷ required rpc "type" (λ v. ok v)
        ∷ required rpc "subtraces" integer
        ∷ (
          codes "traceAddress",
          get_or rpc (codes "traceAddress") (list []) >>= each_of (λ v. ok v),
        )
        ∷ required rpc "transactionHash" lowered
        ∷ required rpc "blockHash" lowered
        ∷ required rpc "blockNumber" (λ v. of_nat (coerce_rpc_int v))
        ∷ optional rpc "result" (λ v. ok v)
      ++ optional rpc "error" (λ v. ok v)
      ++ optional rpc "transactionPosition" position)
