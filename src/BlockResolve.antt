-- ===== src/BlockResolve.antt =====
-- block_resolve.py: the block number that an identifier stands for, or `none`.
pub mod Laws
mod Tests
use exec_rest_api.Base.{
  ℕ, Bool, true, false, Option, none, some, List, [], ◌∷◌, Text, codes, text_eq, if◌then◌else◌,
}
use exec_rest_api.Json.{Json, null, bool, str, item}
use exec_rest_api.Json
use exec_rest_api.Encoding.{hex_to_int}
use exec_rest_api.BlockId.{BlockId, tag, number, hash}
use exec_rest_api.Exec.{Upstream, Exec, call, pure, lift, ◌>>=◌}

-- None, or hex_to_int(rpc["number"])
unfoldable pub number_of : Json → Json.Result (Option ℕ)
number_of null = Json.ok none
number_of rpc = Json.◌>>=◌ (Json.◌>>=◌ (item rpc (codes "number")) hex_to_int) λ n. Json.ok (some n)

unfoldable pub resolve_block_id : Upstream → BlockId → Exec (Option ℕ)
resolve_block_id u (number n) = pure (some n)
resolve_block_id u (tag t) =
    if text_eq t (codes "earliest")
    then pure (some 0)
    else if text_eq t (codes "latest")
    then (do head ← call u "eth_blockNumber" []; n ← lift (hex_to_int head); pure (some n))
    else (do rpc ← call u "eth_getBlockByNumber" (str t ∷ bool false ∷ []); lift (number_of rpc))
resolve_block_id u (hash h) = do
  rpc ← call u "eth_getBlockByHash" (str h ∷ bool false ∷ [])
  lift (number_of rpc)
