-- ===== src/Config/Tests.antt =====
-- The configuration of given environments (config/env.js).
use ai_distributed_job_platf.Prelude.{
  ◌≡◌, refl, String, [], ◌∷◌, none, some, plain_error, threw, template, str_eq, if◌then◌else◌,
}
use ai_distributed_job_platf.JobHandlers.Texts.{is_space}
use ai_distributed_job_platf.Config.{Environment, ai_models, load_env}
use ai_distributed_job_platf.Config.Models.{IsName, ai_models-listed}

abbrev nothing_set : Environment
nothing_set name = none

abbrev models_set : String → Environment
models_set models name = if str_eq name "AI_MODELS" then some models else none

default_models : ai_models nothing_set ≡ "claude-sonnet-5" ∷ "claude-haiku-4-5-20251001" ∷ []
unfolding ai_models is_space
default_models = refl

-- A value that lists nothing gives an empty chain, not the default.
no_models : ai_models (models_set " , ") ≡ []
unfolding ai_models is_space
no_models = refl

refuses :
    load_env (λ text. none) nothing_set ≡ threw (plain_error "Missing required env var: MONGO_URI")
unfolding load_env template
refuses = refl

IsName-m1 : IsName "m1"
IsName-m1 = record {
  plain = refl;
  begins = unfold is_space in refl;
  ends = unfold is_space in refl;
}

IsName-m2 : IsName "m2"
IsName-m2 = record {
  plain = refl;
  begins = unfold is_space in refl;
  ends = unfold is_space in refl;
}

reads_list : ai_models (models_set "m1, m2") ≡ "m1" ∷ "m2" ∷ []
reads_list =
    ai_models-listed (models_set "m1, m2") "m1" ("m2" ∷ []) refl (IsName-m1, (IsName-m2, tt))
