-- ===== src/Chain.antt =====
-- handlers/chain.py: the five handlers of the chain.
pub mod Laws
mod Tests
use exec_rest_api.Base.{ℕ, true, false, [], ◌∷◌, codes}
use exec_rest_api.Json.{
  Json, bool, obj, end, field, item, nat, truthy, says, value_error, Result, ok, err,
}
use exec_rest_api.Json
use exec_rest_api.Encoding.{hex_to_int}
use exec_rest_api.Errors.{Response, json_response}
use exec_rest_api.Exec.{Upstream, Exec, call, gather, pure, lift, ◌>>=◌}

-- _sync_to_rest
unfoldable pub sync_to_rest : Json → Result Json
sync_to_rest (bool false) = ok (obj (field (codes "syncing") (bool false) end))
sync_to_rest (obj fs) = Json.◌>>=◌ (item (obj fs) (codes "startingBlock")) λ s.
    Json.◌>>=◌ (hex_to_int s) λ s. Json.◌>>=◌ (item (obj fs) (codes "currentBlock")) λ c.
      Json.◌>>=◌ (hex_to_int c) λ c. Json.◌>>=◌ (item (obj fs) (codes "highestBlock")) λ t.
        Json.◌>>=◌ (hex_to_int t) λ t. ok (
          obj (
            field (codes "syncing") (bool true) (
              field (codes "startingBlock") (nat s)
                (field (codes "currentBlock") (nat c) (field (codes "highestBlock") (nat t) end)))))
sync_to_rest v = err (value_error (says "unexpected eth_syncing response: {rpc_value!r}" (v ∷ [])))

-- json_response of what the conversion gives
abbrev pub converted_answer : Result Json → Exec Response
converted_answer v = lift v >>= λ w. pure (json_response w)

abbrev pub id_of : Result ℕ → Result Json
id_of chain_id = Json.◌>>=◌ chain_id λ n. ok (obj (field (codes "chainId") (nat n) end))

abbrev pub client_of : Json → Json
client_of client = obj (field (codes "client") client end)

abbrev peers_of : Json × Json → Result Json
peers_of (count, listening) = Json.◌>>=◌ (hex_to_int count) λ n. ok (
    obj
      (field (codes "peerCount") (nat n) (field (codes "listening") (bool (truthy listening)) end)))

-- the object of the composite answer
abbrev pub chain_summary : ℕ → Json → Json → ℕ → Json → Json
chain_summary chain_id network client block sync = obj (
    field (codes "chainId") (nat chain_id) (
      field (codes "networkId") network (
        field (codes "client") client
          (field (codes "blockNumber") (nat block) (field (codes "syncing") sync end)))))

abbrev pub composite : Result ℕ → Json → Json → Result ℕ → Result Json → Result Json
composite chain_id network client block sync =
    Json.◌>>=◌ chain_id
      λ n. Json.◌>>=◌ block λ b. Json.◌>>=◌ sync λ s. ok (chain_summary n network client b s)

abbrev pub chain_of : Json × (Json × (Json × (Json × Json))) → Exec Response
chain_of (chain_id, (network, (client, (sync, block)))) =
    converted_answer
      (composite (hex_to_int chain_id) network client (hex_to_int block) (sync_to_rest sync))

module _ (u : Upstream) where
  unfoldable pub chain : Exec Response
  chain =
      gather (call u "eth_chainId" []) (
        gather (call u "net_version" []) (
          gather (call u "web3_clientVersion" [])
            (gather (call u "eth_syncing" []) (call u "eth_blockNumber" []))))
      >>= chain_of

  unfoldable pub chain_id : Exec Response
  chain_id = call u "eth_chainId" [] >>= λ v. converted_answer (id_of (hex_to_int v))

  unfoldable pub chain_sync_status : Exec Response
  chain_sync_status = call u "eth_syncing" [] >>= λ v. converted_answer (sync_to_rest v)

  unfoldable pub chain_client : Exec Response
  chain_client = call u "web3_clientVersion" [] >>= λ v. converted_answer (ok (client_of v))

  unfoldable pub chain_peers : Exec Response
  chain_peers = gather (call u "net_peerCount" []) (call u "net_listening" []) >>= λ vs.
      converted_answer (peers_of vs)
