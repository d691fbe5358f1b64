-- ===== src/Logs/Laws.antt =====
-- handlers/logs.py: what is refused without a call of the upstream, and how a reorg is answered.
use exec_rest_api.Base.{
  ℕ, zero, suc, false, ◌≡◌, refl, ◌∙◌, ◌⊎◌, inl, inr, Option, none, some, List, [], ◌∷◌, ◌++◌, ℤ,
  pos, negsuc, Text, codes, text_eq, lower,
}
use exec_rest_api.Json.{
  Json, null, str, bool, obj, Fields, get, or_null, item, Message, Exn, cursor_error,
  is_cursor_error, Result, ok, err,
}
use exec_rest_api.Cursor.{Codec, Cursor, decode_cursor}
use exec_rest_api.Cursor.Errors.{IsHandled, Escapes, decode_cursors-IsHandled}
use exec_rest_api.Errors.{Response, bad_request, problem_response}
use exec_rest_api.Exec.{Answers, Call, Upstream, Exec, result, ◌>>=◌}
use exec_rest_api.Logs.Types.{Request, Config, Step, reply, go, chain_reorged}
use exec_rest_api.Logs.Limit.{page_limit, limit_of}
use exec_rest_api.Logs.Ranges.{signed_hex, resumed, verify_cursor_boundary, boundary_of}
use exec_rest_api.Logs.Search.{searched, ranged, searched_body, validate_logfilter_address}
use exec_rest_api.Logs.Filters.{
  is_address_filter, is_topics_filter, address_filter-IsRefused, topics_filter-IsRefused,
}
use exec_rest_api.Logs.Handlers.{get_logs, post_logs_search, with_limit, answer}

-- Every exception of a decoder is caught, or escapes from json.loads.
is_caught :
    (c : Codec) (raw : Text) (r : Result Cursor) {e : Exn}
    → IsHandled (Escapes c raw) r
    → r ≡ err e
    → ((m : Message) × (e ≡ cursor_error m)) ⊎ (Escapes c raw e × (is_cursor_error e ≡ false))
is_caught c raw (ok a) h d = cc
is_caught c raw (err (cursor_error m)) h d = inl (m, cc)
is_caught c raw (err x) h d = inr ((h.0, h.1, cc), cc)

-- the call for the block at which a cursor goes on
abbrev pub boundary_call : Cursor → Call
boundary_call cur = record {
  method = "eth_getBlockByNumber";
  params = str (signed_hex cur.next_from_block) ∷ bool false ∷ [];
}

-- The node has no block there any more, or one with another hash.
abbrev pub Changed : Cursor → Json → Type 0
Changed cur rpc =
    (rpc ≡ null)
    ⊎ ((s : Text) × (item rpc (codes "hash") ≡ ok (str s))
        × (text_eq (lower s) (lower cur.boundary_block_hash) ≡ false))

boundary-Changed :
    (u : Upstream) (cur : Cursor) (path : Text) (rpc : Json)
    → Changed cur rpc
    → (r : Response) × (boundary_of u cur path rpc ≡ ok (some r)) × (r.status ≡ 409)
unfolding boundary_of chain_reorged problem_response
boundary-Changed u cur path rpc (inl e) = rw e (_, refl, refl)
boundary-Changed u cur path (obj fs) (inr (s, a, b)) = rw a (rw b (_, refl, refl))
boundary-Changed u cur path _ (inr (s, a, b)) = cc

-- A limit ends the handler with a 400, or the rest of the handler decides.
abbrev IsLimit : Step ℕ → Type 0
IsLimit (reply r) = r.status ≡ 400
IsLimit (go n) = Unit

limited :
    (s : Step ℕ) (f : ℕ → Exec Response) (h : List Call)
    → IsLimit s
    → ((n : ℕ) → Answers 400 h (f n h))
    → Answers 400 h (with_limit s f h)
limited (reply r) f h l k = (r, refl, l)
limited (go n) f h l k = k n

-- The request is answered with 400 and no call, or has the property P.
refuses_or :
    (P : Result Response × List Call → Type 0) (s : Step ℕ) (f : ℕ → Exec Response) (h : List Call)
    → IsLimit s
    → ((n : ℕ) → Answers 400 h (f n h) ⊎ P (f n h))
    → Answers 400 h (with_limit s f h) ⊎ P (with_limit s f h)
refuses_or P (reply r) f h l k = inl (r, refl, l)
refuses_or P (go n) f h l k = k n

module _ (python_int : Text → Option ℤ) (config : Config) where
  IsLimit-page_limit :
      (path : Text) (raw : Option Text) → IsLimit (page_limit python_int config path raw)
  unfolding page_limit bad_request problem_response
  IsLimit-page_limit path none = tt
  IsLimit-page_limit path (some raw) = parsed (python_int raw)
    where
      parsed : (o : Option ℤ) → IsLimit (limit_of python_int config path raw o)
      parsed none = refl
      parsed (some (pos zero)) = refl
      parsed (some (pos (suc n))) = tt
      parsed (some (negsuc n)) = refl

  module _ (c : Codec) (u : Upstream) where
    -- the exception e of json.loads for the bytes of the cursor is raised, and no call is made
    abbrev pub IsRaised : Text → Exn → List Call → Result Response × List Call → Type 0
    IsRaised raw e h run = Escapes c raw e × (run ≡ (err e, h))

    refused_cursor :
        (path raw base : Text) (limit : ℕ) (h : List Call) {e : Exn}
        → decode_cursor c raw ≡ err e
        → Answers 400 h ((resumed u c path raw >>= answer c python_int config u base limit) h)
          ⊎ IsRaised raw e h ((resumed u c path raw >>= answer c python_int config u base limit) h)
    unfolding resumed bad_request problem_response
    refused_cursor path raw base limit h d =
        elim (is_caught c raw (decode_cursor c raw) (decode_cursors-IsHandled c raw).0 d) [
          | inl (m, e) ↦ inl (rw d (rw e (_, refl, refl)))
          | inr (x, e) ↦ inr (x, rw d (rw e refl))
        ]

    -- A cursor that is not decoded is answered by 400, or what json.loads raised for its bytes is raised,
    -- which is neither UnicodeDecodeError nor JSONDecodeError; in both cases the upstream is not called.
    pub logs_refuse_cursor :
        (req : Request) (raw : Text) (h : List Call) {e : Exn}
        → req.cursor ≡ some raw
        → decode_cursor c raw ≡ err e
        → (Answers 400 h (get_logs c python_int config u req h)
            ⊎ IsRaised raw e h (get_logs c python_int config u req h))
          × (Answers 400 h (post_logs_search c python_int config u req h)
              ⊎ IsRaised raw e h (post_logs_search c python_int config u req h))
    unfolding get_logs post_logs_search
    logs_refuse_cursor req raw h p d = (
      refuses_or (IsRaised raw _ h) _ _ h (IsLimit-page_limit req.path req.limit)
          (λ n. rw p (refused_cursor req.path raw (codes "/logs") n h d)),
      refuses_or (IsRaised raw _ h) _ _ h (IsLimit-page_limit req.path req.limit)
          (λ n. rw p (refused_cursor req.path raw (codes "/logs/search") n h d)),
    )

    -- an invalid address or topic in the body of a search
    refused_body :
        (path base : Text) (limit : ℕ) (fs : Fields) (h : List Call)
        → (is_address_filter (or_null (get fs (codes "address"))) ≡ false)
          ⊎ (is_topics_filter (or_null (get fs (codes "topics"))) ≡ false)
        → Answers 400 h ((searched_body u path fs >>= answer c python_int config u base limit) h)
    unfolding searched_body bad_request problem_response
    refused_body path base limit fs h (inl e) =
        let (m, k) = address_filter-IsRefused (or_null (get fs (codes "address"))) e in
        rw k (_, refl, refl)
    refused_body path base limit fs h (inr e) =
        let (m, k) = topics_filter-IsRefused (or_null (get fs (codes "topics"))) e in
        rw k (second m (validate_logfilter_address (or_null (get fs (codes "address")))))
      where
        second :
            (m : Message) (a : Message ⊎ List Json)
            → Answers 400 h
                ((ranged u path fs a (inl m) >>= answer c python_int config u base limit) h)
        second m (inl n) = (_, refl, refl)
        second m (inr a) = (_, refl, refl)

    -- A search without a cursor, whose body has an address that is not 0x and 40 hex digits, or a topic
    -- that is not 0x and 64, or has them in no shape that the API knows, is answered by 400, and the
    -- upstream is not called.
    pub post_logs_search-refuses_filter :
        (req : Request) (fs : Fields) (h : List Call)
        → req.cursor ≡ none
        → req.body ≡ some (obj fs)
        → (is_address_filter (or_null (get fs (codes "address"))) ≡ false)
          ⊎ (is_topics_filter (or_null (get fs (codes "topics"))) ≡ false)
        → Answers 400 h (post_logs_search c python_int config u req h)
    unfolding post_logs_search searched
    post_logs_search-refuses_filter req fs h p b e =
        limited _ _ h (IsLimit-page_limit req.path req.limit)
          (λ n. rw p (rw b (refused_body req.path (codes "/logs/search") n fs h e)))

    -- the boundary block of a cursor has changed
    reorged :
        (path raw base : Text) (limit : ℕ) (cur : Cursor) (h : List Call) (rpc : Json)
        (r : Response)
        → decode_cursor c raw ≡ ok cur
        → u h (boundary_call cur) ≡ result rpc
        → boundary_of u cur path rpc ≡ ok (some r)
        → Answers r.status
            (h ++ boundary_call cur ∷ [])
            ((resumed u c path raw >>= answer c python_int config u base limit) h)
    unfolding resumed verify_cursor_boundary
    reorged path raw base limit cur h rpc r d a b = rw d (rw a (rw b (_, refl, refl)))

    -- When the boundary block of a cursor is gone or has another hash, a request with a valid limit
    -- is answered by 409 after that one call.
    pub logs_detect_reorg :
        (req : Request) (raw : Text) (n : ℕ) (cur : Cursor) (rpc : Json) (h : List Call)
        → page_limit python_int config req.path req.limit ≡ go n
        → req.cursor ≡ some raw
        → decode_cursor c raw ≡ ok cur
        → u h (boundary_call cur) ≡ result rpc
        → Changed cur rpc
        → Answers 409 (h ++ boundary_call cur ∷ []) (get_logs c python_int config u req h)
          × Answers 409 (h ++ boundary_call cur ∷ []) (post_logs_search c python_int config u req h)
    unfolding get_logs post_logs_search
    logs_detect_reorg req raw n cur rpc h l p d a b =
        let (r, e, s) = boundary-Changed u cur req.path rpc b in
        let found = reorged req.path raw (codes "/logs") n cur h rpc r d a e in
        let searched = reorged req.path raw (codes "/logs/search") n cur h rpc r d a e in
        (
          rw l (rw p (found.0, found.1, found.2 ∙ s)),
          rw l (rw p (searched.0, searched.1, searched.2 ∙ s)),
        )
