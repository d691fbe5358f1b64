-- ===== src/Json/Laws.antt =====
-- The dictionary operations: what a lookup finds after a write or a removal.
use exec_rest_api.Base.{◌≡◌, refl, none, some, Text, text_eq, text_eq_iff, if◌then◌else◌, arith}
use exec_rest_api.Json.{Json, Fields, end, field, get, put, remove}

pub get-put :
    (fs : Fields) (k j : Text) (v : Json)
    → get (put fs k v) j ≡ (if text_eq k j then some v else get fs j)
get-put end k j v = refl
get-put (field i w fs) k j v =
    ground (arith, text_eq_iff k j, text_eq_iff i k, text_eq_iff i j, get-put fs k j v)

pub get-remove :
    (fs : Fields) (k j : Text) → get (remove fs k) j ≡ (if text_eq k j then none else get fs j)
get-remove end k j = ground arith
get-remove (field i w fs) k j =
    ground (arith, text_eq_iff k j, text_eq_iff i k, text_eq_iff i j, get-remove fs k j)
