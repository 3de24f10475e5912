-- ===== src/Models/Json.antt =====
-- Values of a `Mixed` path (models/job.model.js): what JSON can hold. Numbers are natural numbers.
use ai_distributed_job_platf.Prelude.{ℕ, String, Bool}

mutual
  pub data Json : Type 0 where
    null : Json
    bool : Bool → Json
    num : ℕ → Json
    str : String → Json
    arr : Items → Json
    obj : Fields → Json

  pub data Items : Type 0 where
    nil : Items
    cons : Json → Items → Items

  pub data Fields : Type 0 where
    end : Fields
    field : String → Json → Fields → Fields

abbrev pub empty_object : Json
empty_object = obj end
