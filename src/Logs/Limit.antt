-- ===== src/Logs/Limit.antt =====
-- handlers/logs.py: the size of a page. Python's `int(s)` of a text is a parameter.
use exec_rest_api.Base.{ℕ, suc, min, Option, none, some, [], ◌∷◌, ℤ, pos, Text}
use exec_rest_api.Json.{str, says}
use exec_rest_api.Errors.{bad_request}
use exec_rest_api.Logs.Types.{Config, Step, reply, go}

module _ (python_int : Text → Option ℤ) (config : Config) where
  abbrev bad_limit : Text → Text → Step ℕ
  bad_limit path raw =
      reply (
        bad_request path
          (says "limit must be a positive integer, got {limit_raw!r}" (str raw ∷ [])))

  abbrev pub limit_of : Text → Text → Option ℤ → Step ℕ
  limit_of path raw (some (pos (suc n))) = go (min (suc n) config.max_page_size)
  limit_of path raw _ = bad_limit path raw

  -- the limit of a page
  unfoldable pub page_limit : Text → Option Text → Step ℕ
  page_limit path none = go (min config.default_page_size config.max_page_size)
  page_limit path (some raw) = limit_of path raw (python_int raw)
