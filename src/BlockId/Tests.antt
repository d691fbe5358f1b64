-- ===== src/BlockId/Tests.antt =====
-- block_id.py: the theorems at concrete inputs, and runs of the code.
use exec_rest_api.Base.{◌≡◌, refl, true, ◌<◌, length, false, codes, one_of, ◌⊎◌, arith}
use exec_rest_api.Json.{ok, err, block_id_error, value_error, Message}
use exec_rest_api.Encoding.{is_decimal, is_hex_of}
use exec_rest_api.BlockId.{BlockId, number, block_tags, parse_block_id}
use exec_rest_api.BlockId.Laws.{
  print_block_id, IsCanonical, Denotes, parse_block_id_sound, to_rpc_param_injective,
}

parse_block_id_sound_example :
    ((b : BlockId) × (parse_block_id (codes "0x10") ≡ ok b)
      × Denotes (codes "0x10") b
      × IsCanonical b
      × (parse_block_id (print_block_id b) ≡ ok b))
    ⊎ (((m : Message) × (parse_block_id (codes "0x10") ≡ err (block_id_error m))
          × (one_of (codes "0x10") block_tags ≡ false)
          × (is_decimal (codes "0x10") ≡ false)
          × (is_hex_of 64 (codes "0x10") ≡ false))
        ⊎ ((m : Message) × (parse_block_id (codes "0x10") ≡ err (value_error m))
            × (is_decimal (codes "0x10") ≡ true)
            × (4300 < length (codes "0x10"))))
parse_block_id_sound_example = parse_block_id_sound (codes "0x10")

parsed_number : parse_block_id (codes "18234567") ≡ ok (number 18234567)
unfolding parse_block_id
parsed_number = refl

to_rpc_param_injective_example : ◌≡◌ {A = BlockId} (number 16) (number 16)
to_rpc_param_injective_example =
    to_rpc_param_injective (number 16) (number 16) tt tt (omega arith) (omega arith) refl
