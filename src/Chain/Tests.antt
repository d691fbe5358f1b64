-- ===== src/Chain/Tests.antt =====
-- handlers/chain.py with a small node.
use exec_rest_api.Base.{◌≡◌, refl, false, [], codes, text_eq, if◌then◌else◌}
use exec_rest_api.Json.{nat, Json, bool, obj, field, end, word, ok}
use exec_rest_api.Encoding.{hex_to_int}
use exec_rest_api.Errors.{json_response}
use exec_rest_api.Exec.{Call, Reply, result}
use exec_rest_api.Chain.{sync_to_rest, chain, chain_id, chain_sync_status, chain_client}
use exec_rest_api.Chain.Laws.{Agrees, said, chain-Agrees}

-- a node of chain 1 at block 16 that is not syncing
abbrev reply : Call → Reply
reply c =
    if text_eq (codes c.method) (codes "eth_syncing")
    then result (bool false)
    else if text_eq (codes c.method) (codes "eth_blockNumber")
    then result (word "0x10")
    else result (word "0x1")

abbrev summary : Json
summary = obj (
    field (codes "chainId") (nat 1) (
      field (codes "networkId") (word "0x1") (
        field (codes "client") (word "0x1") (
          field (codes "blockNumber") (nat 16)
            (field (codes "syncing") (obj (field (codes "syncing") (bool false) end)) end)))))

answered : (chain (λ calls c. reply c) []).0 ≡ ok (json_response summary)
unfolding chain sync_to_rest hex_to_int
answered = refl

chain-Agrees_example :
    Agrees
      (json_response summary)
      (said reply "net_version")
      (said reply "eth_blockNumber")
      (chain_id (λ calls c. reply c) []).0
      (chain_client (λ calls c. reply c) []).0
      (chain_sync_status (λ calls c. reply c) []).0
unfolding chain sync_to_rest hex_to_int
chain-Agrees_example =
    chain-Agrees reply (json_response summary) [] (chain (λ calls c. reply c) []).1 refl
