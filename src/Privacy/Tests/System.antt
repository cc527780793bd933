-- ===== src/Privacy/Tests/System.antt =====
-- Operations on the engine's tables, one after the other.
use dilion.Base.{String, Bool, ◌≡◌, refl, arith, false, true, List, [], ◌∷◌, Bool}
use dilion.Exec.{ok}
use dilion.Privacy.Db.{deletion}
use dilion.Privacy.Duration.{Duration, to_string, parse_iso_duration, is_zero}
use dilion.Privacy.Duration.RoundTrip.{IsNonNegative, parse_iso_duration-to_string}
use dilion.Privacy.Requests.Create.{CreateRequestInput}
use dilion.Privacy.System.Ops.{
  Operation, create, cancel, run_pipeline, run_tasks, run_retention, perform_all,
}
use dilion.Privacy.System.Deletions.{OneActive, perform_all-OneActive}
use dilion.Privacy.System.Evidence.{AllEvidenced, perform_all-AllEvidenced}
use dilion.Privacy.Tests.World.{deps, peers, due, world}

abbrev input : CreateRequestInput
input = record {
  user_id = "ada";
  type = deletion;
  immediate = true;
  idempotency_key = "k1";
  requested_by = "";
}

abbrev nobody : String → Bool
nobody id = false

abbrev afternoon : List Operation
afternoon =
    cancel "pr_1"
    ∷ create input
    ∷ create input
    ∷ run_pipeline nobody
    ∷ run_tasks
    ∷ run_retention 10
    ∷ []

due-OneActive : OneActive due
due-OneActive user = ground arith

perform_all-OneActive_example : OneActive (perform_all deps peers afternoon (world due)).0.db
perform_all-OneActive_example = perform_all-OneActive deps peers afternoon (world due) due-OneActive

-- P1Y2MT30M
abbrev period : Duration
period = record { years = 1; months = 2; days = 0; hours = 0; mins = 30; secs = 0 }

period-IsNonNegative : IsNonNegative period
period-IsNonNegative = ground arith

period_is_not_zero : is_zero period ≡ false
unfolding is_zero
period_is_not_zero = refl

parse_iso_duration-to_string_example : parse_iso_duration (to_string period) ≡ ok period
parse_iso_duration-to_string_example =
    parse_iso_duration-to_string period period-IsNonNegative period_is_not_zero

due-AllEvidenced : AllEvidenced deps due
due-AllEvidenced id h = ground arith

perform_all-AllEvidenced_example :
    AllEvidenced deps (perform_all deps peers afternoon (world due)).0.db
perform_all-AllEvidenced_example =
    perform_all-AllEvidenced deps peers afternoon (world due) due-AllEvidenced
