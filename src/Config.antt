-- ===== src/Config.antt =====
-- src/config/env.js: what the environment variables give. The environment is a function from a name
-- to a value; `Number` is given, `none` being NaN.
pub mod Models
mod Tests
use Prim.Native.Char.{Char, code}
use Prim.Native.String.{[] as empty, ◌∷◌ as ◌◂◌}
use ai_distributed_job_platf.Prelude.{
  ℕ, String, Bool, true, false, List, [], ◌∷◌, Option, none, some, Error, plain_error, Outcome, ok,
  threw, template, is_empty, split_on, if◌then◌else◌,
}
use ai_distributed_job_platf.JobHandlers.Texts.{trim}

abbrev pub Environment : Type 0
Environment = String → Option String

-- A variable that is set and not empty, as `||` and `!` test it.
abbrev pub set_value : Option String → Option String
set_value none = none
set_value (some value) = if is_empty value then none else some value

abbrev pub or_default : Option String → String → String
or_default none fallback = fallback
or_default (some value) fallback = value

-- `process.env[name] || fallback`.
abbrev pub value_or : Environment → String → String → String
value_or environment name fallback = or_default (set_value (environment name)) fallback

abbrev pub required : List String
required = "MONGO_URI" ∷ "REDIS_HOST" ∷ "REDIS_PORT" ∷ []

abbrev missing_first : String → Option String → Option String → Option String
missing_first name none rest = some name
missing_first name (some value) rest = rest

-- The first of the names that has no value.
abbrev pub missing : Environment → List String → Option String
missing environment [] = none
missing environment (name ∷ names) =
    missing_first name (set_value (environment name)) (missing environment names)

-- `.map((m) => m.trim()).filter(Boolean)`.
abbrev pub trimmed : List String → List String
trimmed [] = []
trimmed (part ∷ parts) =
    let rest = trimmed parts in if is_empty (trim part) then rest else trim part ∷ rest

unfoldable pub ai_models : Environment → List String
ai_models environment =
    trimmed
      (split_on "," (value_or environment "AI_MODELS" "claude-sonnet-5,claude-haiku-4-5-20251001"))

pub record Env : Type 0 where
  pub port : String
  pub node_env : String
  pub mongo_uri : Option String
  pub redis_host : Option String
  pub redis_port : Option ℕ
  pub jwt_access_secret : Option String
  pub jwt_refresh_secret : Option String
  pub kafka_broker : String
  pub worker_concurrency : Option ℕ
  pub anthropic_api_key : Option String
  pub ai_models : List String
  pub ai_request_timeout_ms : Option ℕ

module _ (number : String → Option ℕ) (environment : Environment) where
  -- `Number(undefined)` is NaN.
  abbrev number_of : Option String → Option ℕ
  number_of none = none
  number_of (some text) = number text

  abbrev pub values : Env
  values = record {
    port = value_or environment "PORT" "4000";
    node_env = value_or environment "NODE_ENV" "development";
    mongo_uri = environment "MONGO_URI";
    redis_host = environment "REDIS_HOST";
    redis_port = number_of (environment "REDIS_PORT");
    jwt_access_secret = environment "JWT_ACCESS_SECRET";
    jwt_refresh_secret = environment "JWT_REFRESH_SECRET";
    kafka_broker = value_or environment "KAFKA_BROKER" "localhost:9092";
    worker_concurrency = number (value_or environment "WORKER_CONCURRENCY" "1");
    anthropic_api_key = set_value (environment "ANTHROPIC_API_KEY");
    ai_models = ai_models environment;
    ai_request_timeout_ms = number (value_or environment "AI_REQUEST_TIMEOUT_MS" "25000");
  }

  abbrev by_missing : Option String → Outcome Env
  by_missing none = ok values
  by_missing (some name) = threw (plain_error (template ("Missing required env var: " ∷ name ∷ [])))

  -- The module: it throws when it is loaded without one of the required variables.
  unfoldable pub load_env : Outcome Env
  load_env = by_missing (missing environment required)
