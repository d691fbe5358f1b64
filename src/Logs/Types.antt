-- ===== src/Logs/Types.antt =====
-- handlers/logs.py: the request, and how a stage of a handler ends.
use exec_rest_api.Base.{ℕ, Option, none, some, List, ℤ, Text}
use exec_rest_api.Json.{Json, null, Fields, Message}
use exec_rest_api.Errors.{Response, problem_response}
use exec_rest_api.Exec.{Exec, pure}

pub record Request : Type 0 where
  pub path : Text
  pub limit : Option Text
  pub cursor : Option Text
  pub from_block : Option Text
  pub to_block : Option Text
  pub address : Option Text
  pub topics : List (Option Text)
  -- await request.json(), `none` when it raises
  pub body : Option Json

pub record Config : Type 0 where
  pub default_page_size : ℕ
  pub max_page_size : ℕ

-- a response that ends the handler, or a value with which it goes on
pub data Step {ℓ} (A : Type ℓ) : Type ℓ where
  reply : Response → Step A
  go : A → Step A

abbrev pub next_step : {A B : Type 0} → Step A → (A → Exec (Step B)) → Exec (Step B)
next_step (reply r) f = pure (reply r)
next_step (go a) f = f a

unfoldable pub chain_reorged : Text → Message → Response
unfolding problem_response
chain_reorged path detail = problem_response (record {
  status = 409;
  type_slug = "chain-reorged";
  title = "Chain reorganized";
  detail = some detail;
  instance_path = some path;
  code = none;
  extra = null;
})

-- what is fetched
pub record Query : Type 0 where
  pub filter : Fields
  pub from_block : ℤ
  pub to_block : ℤ
  pub skip_until : ℤ
