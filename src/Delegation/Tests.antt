-- ===== src/Delegation/Tests.antt =====
-- delegation.py on concrete codes.
use exec_rest_api.Base.{◌≡◌, refl, some, none, codes, Text, lower, ◌++◌}
use exec_rest_api.Encoding.{map_address_lowercase}
use exec_rest_api.Delegation.Laws.{detect_delegate-designator, detect_delegate-address}
use exec_rest_api.Json.{str, ok}
use exec_rest_api.Delegation.{detect_delegate, delegate_of}

designator :
    detect_delegate (str (codes "0xEF0100AA00000000000000000000000000000000000001"))
    ≡ ok (some (codes "0xaa00000000000000000000000000000000000001"))
unfolding detect_delegate delegate_of
designator = refl

contract_code : detect_delegate (str (codes "0x6001")) ≡ ok none
unfolding detect_delegate delegate_of
contract_code = refl

abbrev digits : Text
digits = codes "AA00000000000000000000000000000000000001"

detect_delegate-designator_example :
    detect_delegate (str (codes "0xef0100" ++ digits)) ≡ ok (some (codes "0x" ++ lower digits))
detect_delegate-designator_example = detect_delegate-designator digits refl refl

detect_delegate-address_example :
    map_address_lowercase (str (codes "0xaa00000000000000000000000000000000000001"))
    ≡ ok (codes "0xaa00000000000000000000000000000000000001")
detect_delegate-address_example =
    detect_delegate-address (str (codes "0xEF0100AA00000000000000000000000000000000000001")) _
      designator
