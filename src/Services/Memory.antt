-- ===== src/Services/Memory.antt =====
-- Services in memory, with every law proved: they show that what the development assumes of MongoDB
-- and Redis can hold, and run the examples. They stand for no code of the repository.
mod Sets
mod Documents
use ai_distributed_job_platf.Services.{Services}
use Sets.{memory_sets}
use Documents.{memory_jobs}

instance abbrev pub memory : Services
memory = record { collection = memory_jobs; sorted_sets = memory_sets }
