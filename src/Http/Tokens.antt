-- ===== src/Http/Tokens.antt =====
-- The way of an access token from a login (modules/auth/auth.controller.js) to the middleware
-- (middlewares/authenticate.js).
use ai_distributed_job_platf.Prelude.{String, append}

-- The header that carries a token.
abbrev pub bearer : String → String
bearer token = append "Bearer " token
