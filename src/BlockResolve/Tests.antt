-- ===== src/BlockResolve/Tests.antt =====
-- block_resolve.py with a node whose head is block 16.
use exec_rest_api.Base.{◌≡◌, refl, some, [], codes}
use exec_rest_api.Json.{word, ok}
use exec_rest_api.Encoding.{hex_to_int}
use exec_rest_api.BlockId.{tag}
use exec_rest_api.Exec.{Upstream, result}
use exec_rest_api.BlockResolve.{resolve_block_id}
use exec_rest_api.BlockResolve.Laws.{AtMostOneCall, resolve_block_id-calls}

abbrev node : Upstream
node h c = result (word "0x10")

latest : (resolve_block_id node (tag (codes "latest")) []).0 ≡ ok (some 16)
unfolding resolve_block_id hex_to_int
latest = refl

resolve_block_id-calls_example :
    AtMostOneCall [] (resolve_block_id node (tag (codes "latest")) []).1
resolve_block_id-calls_example = resolve_block_id-calls node (tag (codes "latest")) []
