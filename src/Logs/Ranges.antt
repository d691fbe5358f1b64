-- ===== src/Logs/Ranges.antt =====
-- handlers/logs.py: the range to fetch, from a cursor or from the query string.
use exec_rest_api.Base.{
  ℕ, suc, String, Bool, false, Option, none, some, List, [], ◌∷◌, ◌++◌, ◌⊎◌, inl, inr, ℤ, pos,
  negsuc, int_leb, Text, codes, text_eq, lower, if◌then◌else◌,
}
use exec_rest_api.Json.{
  Json, null, bool, int, float, str, arr, obj, Fields, end, field, get, item, items, list, lower_of,
  or_null, put, truthy, each, Message, says, wraps, Exn, block_id_error, type_error, exn_text,
  is_block_id_error, is_cursor_error, Result, ok, err,
}
use exec_rest_api.Json
use exec_rest_api.Encoding.{hex}
use exec_rest_api.Encoding.Numerals.{print_16}
use exec_rest_api.BlockId.{BlockId, parse_block_id}
use exec_rest_api.BlockResolve.{resolve_block_id}
use exec_rest_api.Cursor.{Codec, Cursor, decode_cursor}
use exec_rest_api.Errors.{Response, bad_request}
use exec_rest_api.Exec.{Upstream, Exec, call, pure, lift, raise, ◌>>=◌}
use exec_rest_api.Logs.Types.{Request, Step, reply, go, next_step, chain_reorged, Query}
use exec_rest_api.Logs.Input.{parse_topics, parse_addresses_csv, build_filter}

-- f"0x{n:x}"
abbrev pub signed_hex : ℤ → Text
signed_hex (pos n) = hex n
signed_hex (negsuc n) = codes "0x-" ++ print_16 (suc n)

-- `except BlockIdError` and `except CursorError`; another exception is raised
abbrev pub or_bad_request :
    {A : Type 0} → (Exn → Bool) → Text → (Exn → Message) → Result A → Exec (Step A)
or_bad_request caught path m (ok a) = pure (go a)
or_bad_request caught path m (err e) =
    if caught e then pure (reply (bad_request path (m e))) else raise e

module _ (u : Upstream) where
  abbrev checked_hash : Cursor → Text → Text → Option Response
  checked_hash cur path hash =
      if text_eq hash (lower cur.boundary_block_hash)
      then none
      else some (
          chain_reorged path (
            says
              "block {cursor.next_from_block} hash changed since cursor was issued; restart the query"
              (int cur.next_from_block ∷ [])))

  unfoldable pub boundary_of : Cursor → Text → Json → Result (Option Response)
  boundary_of cur path null = ok (
      some (
        chain_reorged path (
          says "block {cursor.next_from_block} no longer exists; restart the query"
            (int cur.next_from_block ∷ []))))
  boundary_of cur path rpc =
      Json.◌>>=◌ (Json.◌>>=◌ (item rpc (codes "hash")) lower_of)
        λ hash. ok (checked_hash cur path hash)

  unfoldable pub verify_cursor_boundary : Cursor → Text → Exec (Option Response)
  verify_cursor_boundary cur path = do
    rpc ← call u "eth_getBlockByNumber" (str (signed_hex cur.next_from_block) ∷ bool false ∷ [])
    lift (boundary_of cur path rpc)

  abbrev resume : Cursor → Option Response → Step Query
  resume cur (some reorg) = reply reorg
  resume cur none = go (record {
    filter = cur.filter;
    from_block = cur.next_from_block;
    to_block = cur.to_block;
    skip_until = cur.last_log_index;
  })

  abbrev resume_at : Text → Step Cursor → Exec (Step Query)
  resume_at path (reply r) = pure (reply r)
  resume_at path (go cur) = verify_cursor_boundary cur path >>= λ reorg. pure (resume cur reorg)

  -- the branch of a request that carries a cursor
  unfoldable pub resumed : Codec → Text → Text → Exec (Step Query)
  resumed c path raw = do
    step ←
        or_bad_request is_cursor_error path (λ e. wraps "invalid cursor: {e}" (exn_text e))
          (decode_cursor c raw)
    resume_at path step

  -- the range of a new query, behind both resolutions
  abbrev range_of : Text → Option ℕ → Option ℕ → Step (ℕ × ℕ)
  range_of path (some from) (some to) =
      if int_leb (pos from) (pos to)
      then go (from, to)
      else reply (
          bad_request path (
            says "fromBlock ({from_block}) must be <= toBlock ({to_block})"
              (int (pos from) ∷ int (pos to) ∷ [])))
  range_of path _ _ = reply (bad_request path (says "fromBlock/toBlock could not be resolved" []))

  unfoldable pub block_range : Text → Result (BlockId × BlockId) → Exec (Step (ℕ × ℕ))
  block_range path ids = or_bad_request is_block_id_error path exn_text ids >>= λ step. resolve step
    where
      resolve : Step (BlockId × BlockId) → Exec (Step (ℕ × ℕ))
      resolve (reply r) = pure (reply r)
      resolve (go (from_bid, to_bid)) = do
        from ← resolve_block_id u from_bid
        to ← resolve_block_id u to_bid
        pure (range_of path from to)

  abbrev csv_filter : Text → ℕ × ℕ → Message ⊎ Option (List Json) → Message ⊎ List Json → Step Query
  csv_filter path range (inl m) topics = reply (bad_request path m)
  csv_filter path range (inr addresses) (inl m) = reply (bad_request path m)
  csv_filter path (from, to) (inr addresses) (inr topics) = go (record {
    filter = build_filter addresses topics;
    from_block = pos from;
    to_block = pos to;
    skip_until = negsuc 0;
  })

  abbrev pub or_text : String → Option Text → Text
  or_text d none = codes d
  or_text d (some s) = s

  abbrev pub both_ids : Result BlockId → Result BlockId → Result (BlockId × BlockId)
  both_ids from to = Json.◌>>=◌ from λ a. Json.◌>>=◌ to λ b. ok (a, b)

  -- the branch of `get_logs` without a cursor
  unfoldable pub fresh : Request → Exec (Step Query)
  fresh req = do
    range ← block_range req.path (
        both_ids (parse_block_id (or_text "earliest" req.from_block))
          (parse_block_id (or_text "latest" req.to_block)))
    next_step range λ r.
        pure (csv_filter req.path r (parse_addresses_csv req.address) (parse_topics 0 req.topics))
