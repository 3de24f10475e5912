-- ===== src/JobHandlers/Fences.antt =====
-- The removal of a Markdown fence around JSON (worker/jobHandlers/aiHandlers.js, `extractHandler`).
use Prim.Native.Char.{Char}
use Prim.Native.String.{[] as empty, ◌∷◌ as ◌◂◌}
use ai_distributed_job_platf.Prelude.{String, Bool, false, not, append}
use ai_distributed_job_platf.JobHandlers.Texts.{is_space}

-- A text that begins with something other than white space, and one that ends so.
abbrev pub begins : String → Bool
begins empty = false
begins (c ◂ text) = not (is_space c)

abbrev pub ends : String → Bool
ends empty = false
ends (c ◂ empty) = not (is_space c)
ends (c ◂ (d ◂ text)) = ends (d ◂ text)

-- A text in a fence that names JSON.
abbrev pub fenced : String → String
fenced text = append "```json\n" (append text "\n```")
