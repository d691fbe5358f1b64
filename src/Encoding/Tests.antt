-- ===== src/Encoding/Tests.antt =====
-- encoding.py: the theorems at concrete inputs, and runs of the code.
use exec_rest_api.Base.{◌≡◌, refl, true, Text, codes, lower}
use exec_rest_api.Json.{nat, str, ok, ◌>>=◌}
use exec_rest_api.Base.{◌↔◌}
use exec_rest_api.Encoding.{
  is_hex_of, int_of_hex, hex, decimal, hex_to_int, coerce_rpc_int, decimal_to_hex, wei_from_rpc,
  wei_to_rpc, rest_status_from_rpc, rpc_status_from_rest, rest_tx_type_from_rpc,
  rpc_tx_type_from_rest, map_address_lowercase,
}
use exec_rest_api.Encoding.Numerals.{print_16, print_10}
use exec_rest_api.Encoding.RoundTrip.{
  hex_to_int-decimal_to_hex, wei_to_rpc-wei_from_rpc, coerce_rpc_int_forms,
  map_address_lowercase_normalises, enumerations_inverse,
}

hex_to_int-decimal_to_hex_example :
    (decimal_to_hex (nat 4096) >>= λ s. hex_to_int (str s)) ≡ ok 4096
hex_to_int-decimal_to_hex_example = hex_to_int-decimal_to_hex 4096

one_gwei : hex_to_int (str (codes "0x3B9aca00")) ≡ ok 1000000000
unfolding hex_to_int
one_gwei = refl

wei_to_rpc-wei_from_rpc_example :
    (wei_from_rpc (str (codes "0x3B9aca00")) ≡ ok (decimal 1000000000))
    × ((wei_from_rpc (str (codes "0x3B9aca00")) >>= λ w. wei_to_rpc (str w))
        ≡ decimal_to_hex (nat 1000000000))
wei_to_rpc-wei_from_rpc_example =
    wei_to_rpc-wei_from_rpc (str (codes "0x3B9aca00")) 1000000000 one_gwei

sixteen_forms :
    (coerce_rpc_int (nat 16) ≡ ok 16)
    × (coerce_rpc_int (str (hex 16)) ≡ ok 16)
    × (coerce_rpc_int (str (decimal 16)) ≡ ok 16)
sixteen_forms = coerce_rpc_int_forms 16

abbrev mixed : Text
mixed = codes "0xABcdefABcdefABcdefABcdefABcdefABcdefABcd"

abbrev lowered : Text
lowered = codes "0xabcdefabcdefabcdefabcdefabcdefabcdefabcd"

mixed-lowered : map_address_lowercase (str mixed) ≡ ok lowered
unfolding map_address_lowercase
mixed-lowered = refl

map_address_lowercase_normalises_example :
    (is_hex_of 40 mixed ≡ true)
    × (lower lowered ≡ lowered)
    × (map_address_lowercase (str lowered) ≡ ok lowered)
    × (int_of_hex lowered ≡ int_of_hex mixed)
map_address_lowercase_normalises_example =
    map_address_lowercase_normalises mixed lowered mixed-lowered

success_and_legacy :
    ((rest_status_from_rpc (codes "0x1") ≡ ok (codes "success"))
      ↔ (rpc_status_from_rest (codes "success") ≡ ok (codes "0x1")))
    × ((rest_tx_type_from_rpc (codes "0x1") ≡ ok (codes "success"))
        ↔ (rpc_tx_type_from_rest (codes "success") ≡ ok (codes "0x1")))
success_and_legacy = enumerations_inverse (codes "0x1") (codes "success")

printed :
    (decimal_to_hex (nat 255) ≡ ok (codes "0xff"))
    × (wei_from_rpc (str (codes "0x0")) ≡ ok (codes "0"))
unfolding decimal_to_hex wei_from_rpc print_16 print_10
printed = (refl, refl)
