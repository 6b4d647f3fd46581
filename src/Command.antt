-- ===== src/Command.antt =====
-- `CommandResult` of z4j_core: what an action answers to the brain.
use z4j_celery.Prelude.{String, Option, none, some}
use z4j_celery.Python.{Value, Dict}

pub data Status : Type 0 where
  success failed : Status

pub record CommandResult : Type 0 where
  pub status : Status
  pub error : Option String
  pub result : Option (Dict Value)

abbrev pub succeeded : Dict Value → CommandResult
succeeded result = record { status = success; error = none; result = some result }

abbrev pub refused : String → CommandResult
refused error = record { status = failed; error = some error; result = none }
