-- ===== src/Chain/Laws.antt =====
-- handlers/chain.py: the composite answer and the single ones.
use exec_rest_api.Base.{ℕ, String, ◌≡◌, refl, sym, ap, some, List, [], codes}
use exec_rest_api.Json.{of_ok, Json, obj, Fields, get, end, field, nat, Result, ok, err}
use exec_rest_api.Encoding.{hex_to_int}
use exec_rest_api.Errors.{Response, json_response}
use exec_rest_api.Exec.{Call, Reply, of_reply, both, continue}
use exec_rest_api.Chain.{
  sync_to_rest, chain, chain_id, chain_sync_status, chain_client, chain_of, id_of, client_of,
  converted_answer, composite,
}

-- the fields of the composite answer: the chain id, the client and the state of the synchronisation of
-- the three single answers, the version of the network as the node gave it, and the number of the block
abbrev pub Agrees :
    Response
    → Result Json
    → Result Json
    → Result Response
    → Result Response
    → Result Response
    → Type 0
Agrees r version block of_id of_client of_sync =
    (fields : Fields) × (n b : ℕ) × (network client sync height : Json) × (r
      ≡ json_response (obj fields))
    × (get fields (codes "chainId") ≡ some (nat n))
    × (get fields (codes "networkId") ≡ some network)
    × (get fields (codes "client") ≡ some client)
    × (get fields (codes "blockNumber") ≡ some (nat b))
    × (get fields (codes "syncing") ≡ some sync)
    × (version ≡ ok network)
    × (block ≡ ok height)
    × (hex_to_int height ≡ ok b)
    × (of_id ≡ ok (json_response (obj (field (codes "chainId") (nat n) end))))
    × (of_client ≡ ok (json_response (obj (field (codes "client") client end))))
    × (of_sync ≡ ok (json_response sync))

composite-Agrees :
    (id block : Result ℕ) (network client height : Json) (sync : Result Json) {r : Response}
    (g g1 g2 g3 : List Call) {h : List Call}
    → hex_to_int height ≡ block
    → converted_answer (composite id network client block sync) g ≡ (ok r, h)
    → Agrees r
        (ok network)
        (ok height)
        (converted_answer (id_of id) g1).0
        (converted_answer (ok (client_of client)) g2).0
        (converted_answer sync g3).0
composite-Agrees (ok n) (ok b) network client height (ok s) g g1 g2 g3 d e = (
  _,
  n,
  b,
  network,
  client,
  s,
  height,
  sym (of_ok (ap (λ x. x.0) e)),
  refl,
  refl,
  refl,
  refl,
  refl,
  refl,
  refl,
  d,
  refl,
  refl,
  refl,
)
composite-Agrees (ok n) (ok b) network client height (err x) g g1 g2 g3 d e = cc
composite-Agrees (ok n) (err x) network client height s g g1 g2 g3 d e = cc
composite-Agrees (err x) b network client height s g g1 g2 g3 d e = cc

gathered-Agrees :
    (id network client sync block : Result Json) {r : Response} (g g1 g2 g3 : List Call)
    {h : List Call}
    → continue (both id (both network (both client (both sync block)))) chain_of g ≡ (ok r, h)
    → Agrees r network block
        (continue id (λ v. converted_answer (id_of (hex_to_int v))) g1).0
        (continue client (λ v. converted_answer (ok (client_of v))) g2).0
        (continue sync (λ v. converted_answer (sync_to_rest v)) g3).0
gathered-Agrees (ok i) (ok n) (ok c) (ok s) (ok b) g g1 g2 g3 e =
    composite-Agrees (hex_to_int i) (hex_to_int b) n c b (sync_to_rest s) g g1 g2 g3 refl e
gathered-Agrees (ok i) (ok n) (ok c) (ok s) (err x) g g1 g2 g3 e = cc
gathered-Agrees (ok i) (ok n) (ok c) (err x) b g g1 g2 g3 e = cc
gathered-Agrees (ok i) (ok n) (err x) s b g g1 g2 g3 e = cc
gathered-Agrees (ok i) (err x) c s b g g1 g2 g3 e = cc
gathered-Agrees (err x) n c s b g g1 g2 g3 e = cc

-- what the node replies to a call without parameters
abbrev pub said : (Call → Reply) → String → Result Json
said reply method = of_reply (reply (record { method = method; params = [] }))

-- When the node replies to a call in the same way each time and /chain answers, then /chain/id,
-- /chain/client and /chain/sync-status answer as well. The fields `chainId`, `client` and `syncing` of
-- the composite answer are theirs, `networkId` is what the node gave for net_version, and `blockNumber`
-- is the number that it gave for eth_blockNumber.
pub chain-Agrees :
    (reply : Call → Reply) (r : Response) (g h : List Call)
    → chain (λ calls c. reply c) g ≡ (ok r, h)
    → Agrees r
        (said reply "net_version")
        (said reply "eth_blockNumber")
        (chain_id (λ calls c. reply c) g).0
        (chain_client (λ calls c. reply c) g).0
        (chain_sync_status (λ calls c. reply c) g).0
unfolding chain chain_id chain_client chain_sync_status
chain-Agrees reply r g h e = gathered-Agrees _ _ _ _ _ _ _ _ _ e
