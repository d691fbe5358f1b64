-- ===== src/Shapes/Tests.antt =====
-- The converters on concrete objects.
use exec_rest_api.Base.{◌≡◌, refl, ℕ, false, some, List, [], ◌∷◌, codes, length}
use exec_rest_api.Json.{
  Json, null, bool, str, obj, Fields, end, field, nat, list, word, get, get_or, item, elements,
  each, ok, ◌>>=◌,
}
use exec_rest_api.Encoding.{
  hex, decimal, hex_to_int, wei_from_rpc, wei_to_rpc, map_address_lowercase, rest_tx_type_from_rpc,
  rest_status_from_rpc,
}
use exec_rest_api.Encoding.Numerals.{print_10}
use exec_rest_api.Pagination.{log_position}
use exec_rest_api.Shapes.{
  dict, to_dict, access_entry, transaction_from_rpc, log_from_rpc, receipt_from_rpc,
}
use exec_rest_api.Shapes.Laws.{
  log_from_rpc-position, transaction_from_rpc-value, receipt_from_rpc-logs,
}

abbrev log : Fields
log = field (codes "address") (word "0xAbcdef0123456789abcdef0123456789abcdef01") (
    field (codes "topics") (list ((word "0xAA") ∷ [])) (
      field (codes "data") (word "0x") (
        field (codes "blockHash") (word "0xB1") (
          field (codes "blockNumber") (word "0x10") (
            field (codes "transactionHash") (word "0xC1") (
              field (codes "transactionIndex") (word "0x0")
                (field (codes "logIndex") (word "0x2") (end))))))))

abbrev rest_log : Fields
rest_log = field (codes "address") (word "0xabcdef0123456789abcdef0123456789abcdef01") (
    field (codes "topics") (list ((word "0xaa") ∷ [])) (
      field (codes "data") (word "0x") (
        field (codes "blockHash") (word "0xb1") (
          field (codes "blockNumber") (nat 16) (
            field (codes "transactionHash") (word "0xc1") (
              field (codes "transactionIndex") (nat 0) (
                field (codes "logIndex") (nat 2) (field (codes "removed") (bool false) (end)))))))))

abbrev tx : Fields
tx = field (codes "type") (word "0x2") (
    field (codes "hash") (word "0xD1") (
      field (codes "from") (word "0xAbcdef0123456789abcdef0123456789abcdef01") (
        field (codes "nonce") (word "0x7") (
          field (codes "gas") (word "0x5208") (
            field (codes "input") (word "0x") (
              field (codes "value") (word "0x64") (
                field (codes "r") (word "0x1") (
                  field (codes "s") (word "0x2") (
                    field (codes "chainId") (word "0x1") (
                      field (codes "maxFeePerGas") (word "0xa") (
                        field (codes "to") (null) (
                          field (codes "accessList")
                            (list (
                              (obj (
                                field (codes "address")
                                  (word "0xAbcdef0123456789abcdef0123456789abcdef01")
                                  (field (codes "storageKeys") (list ((word "0xF") ∷ [])) (end))))
                              ∷ []))
                            (end)))))))))))))

abbrev rest_tx : Fields
rest_tx = field (codes "type") (word "dynamic-fee") (
    field (codes "hash") (word "0xd1") (
      field (codes "from") (word "0xabcdef0123456789abcdef0123456789abcdef01") (
        field (codes "nonce") (nat 7) (
          field (codes "gas") (nat 21000) (
            field (codes "input") (word "0x") (
              field (codes "value") (word "100") (
                field (codes "r") (word "0x1") (
                  field (codes "s") (word "0x2") (
                    field (codes "blockHash") (null) (
                      field (codes "blockNumber") (null) (
                        field (codes "transactionIndex") (null) (
                          field (codes "to") (null) (
                            field (codes "chainId") (nat 1) (
                              field (codes "maxFeePerGas") (word "10") (
                                field (codes "accessList")
                                  (list (
                                    (obj (
                                      field (codes "address")
                                        (word "0xabcdef0123456789abcdef0123456789abcdef01")
                                        (field (codes "storageKeys") (list ((word "0xf") ∷ []))
                                          (end))))
                                    ∷ []))
                                  (end))))))))))))))))

abbrev receipt : Fields
receipt = field (codes "transactionHash") (word "0xC1") (
    field (codes "transactionIndex") (word "0x0") (
      field (codes "blockHash") (word "0xB1") (
        field (codes "blockNumber") (word "0x10") (
          field (codes "from") (word "0xAbcdef0123456789abcdef0123456789abcdef01") (
            field (codes "cumulativeGasUsed") (word "0x1") (
              field (codes "gasUsed") (word "0x1") (
                field (codes "logsBloom") (word "0x0") (
                  field (codes "logs")
                    (list (
                      (obj (
                        field (codes "address") (word "0xAbcdef0123456789abcdef0123456789abcdef01")
                          (field (codes "topics") (list ((word "0xAA") ∷ [])) (
                            field (codes "data") (word "0x") (
                              field (codes "blockHash") (word "0xB1") (
                                field (codes "blockNumber") (word "0x10") (
                                  field (codes "transactionHash") (word "0xC1") (
                                    field (codes "transactionIndex") (word "0x0")
                                      (field (codes "logIndex") (word "0x2") (end))))))))))
                      ∷ []))
                    (field (codes "status") (word "0x1")
                      (field (codes "type") (word "0x0") (end)))))))))))

abbrev rest_receipt : Fields
rest_receipt = field (codes "transactionHash") (word "0xc1") (
    field (codes "transactionIndex") (nat 0) (
      field (codes "blockHash") (word "0xb1") (
        field (codes "blockNumber") (nat 16) (
          field (codes "from") (word "0xabcdef0123456789abcdef0123456789abcdef01") (
            field (codes "cumulativeGasUsed") (nat 1) (
              field (codes "gasUsed") (nat 1) (
                field (codes "logsBloom") (word "0x0") (
                  field (codes "logs")
                    (list (
                      (obj (
                        field (codes "address") (word "0xabcdef0123456789abcdef0123456789abcdef01")
                          (field (codes "topics") (list ((word "0xaa") ∷ [])) (
                            field (codes "data") (word "0x") (
                              field (codes "blockHash") (word "0xb1") (
                                field (codes "blockNumber") (nat 16) (
                                  field (codes "transactionHash") (word "0xc1") (
                                    field (codes "transactionIndex") (nat 0) (
                                      field (codes "logIndex") (nat 2)
                                        (field (codes "removed") (bool false) (end)))))))))))
                      ∷ []))
                    (field (codes "status") (word "success") (
                      field (codes "type") (word "legacy") (
                        field (codes "to") (null)
                          (field (codes "contractAddress") (null) (end)))))))))))))

log_converted : log_from_rpc (obj log) ≡ ok (obj rest_log)
unfolding log_from_rpc to_dict dict hex_to_int map_address_lowercase wei_from_rpc
    rest_tx_type_from_rpc rest_status_from_rpc
log_converted = refl

tx_converted : transaction_from_rpc (obj tx) ≡ ok (obj rest_tx)
unfolding transaction_from_rpc to_dict dict hex_to_int map_address_lowercase wei_from_rpc
    rest_tx_type_from_rpc rest_status_from_rpc access_entry print_10
tx_converted = refl

receipt_converted : receipt_from_rpc (obj receipt) ≡ ok (obj rest_receipt)
unfolding receipt_from_rpc to_dict dict hex_to_int map_address_lowercase wei_from_rpc
    rest_tx_type_from_rpc rest_status_from_rpc log_from_rpc
receipt_converted = refl

log_from_rpc-position_example :
    (b : ℕ) × (i : ℕ) × (log_position (obj log) ≡ ok (b, i))
    × (get rest_log (codes "blockNumber") ≡ some (nat b))
    × (get rest_log (codes "logIndex") ≡ some (nat i))
log_from_rpc-position_example = log_from_rpc-position (obj log) rest_log log_converted

transaction_from_rpc-value_example :
    ((n : ℕ) × ((item (obj tx) (codes "value") >>= hex_to_int) ≡ ok n)
      × (get rest_tx (codes "value") ≡ some (str (decimal n)))
      × (wei_to_rpc (str (decimal n)) ≡ ok (hex n)))
    × ((n : ℕ) × ((item (obj tx) (codes "nonce") >>= hex_to_int) ≡ ok n)
        × (get rest_tx (codes "nonce") ≡ some (nat n)))
    × ((n : ℕ) × ((item (obj tx) (codes "gas") >>= hex_to_int) ≡ ok n)
        × (get rest_tx (codes "gas") ≡ some (nat n)))
transaction_from_rpc-value_example = transaction_from_rpc-value (obj tx) rest_tx tx_converted

receipt_from_rpc-logs_example :
    (logs rest : List Json) × ((get_or (obj receipt) (codes "logs") (list []) >>= elements)
      ≡ ok logs)
    × (each log_from_rpc logs ≡ ok rest)
    × (get rest_receipt (codes "logs") ≡ some (list rest))
    × (length rest ≡ length logs)
receipt_from_rpc-logs_example = receipt_from_rpc-logs (obj receipt) rest_receipt receipt_converted
