-- ===== src/Privacy/Tests/Pipeline.antt =====
-- Runs of the pipeline on the request of one person, and the properties there.
use dilion.Base.{◌≡◌, refl, true, any, []}
use dilion.Exec
use dilion.Exec.{World}
use dilion.Privacy.Db.{requested, legal_hold}
use dilion.Privacy.Policy
use dilion.Privacy.Pipeline.Common
use dilion.Privacy.Pipeline.Credentials
use dilion.Privacy.Pipeline.Evidence
use dilion.Privacy.Pipeline.Vault
use dilion.Privacy.Pipeline.Runner
use dilion.Privacy.Pipeline.Runner.{steps, process_request, process_loaded, process_found}
use dilion.Privacy.Pipeline.Isolation.Spares.{Spares}
use dilion.Privacy.Pipeline.Isolation.Run.{process_request_isolated}
use dilion.Privacy.Pipeline.Completion.Quiet.{is_closed}
use dilion.Privacy.Pipeline.Completion.Run.{Evidenced}
use dilion.Privacy.Pipeline.Completion.Done.{process_request-Evidenced}
use dilion.Privacy.Pipeline.Gates.{OnlyParks, process_request_held, cancellation_wins}
use dilion.Privacy.Pipeline.Liveness.Gates.{IsReadable}
use dilion.Privacy.Pipeline.Liveness.Done.{process_request_completes}
use dilion.Privacy.Requests.Replay.{later}
use dilion.Privacy.Tests.World.{deps, gdpr, request, due, held, withdrawn, world}

process_request_isolated_example :
    Spares "ada" "pr_1" due (process_request deps "pr_1" (world due)).0.db
process_request_isolated_example =
    process_request_isolated deps "pr_1" (request "pr_1" "ada" requested) (world due) refl

run_ends : any (is_closed "pr_1") (process_request deps "pr_1" (world due)).0.db.requests ≡ true
unfolding process_request Exec.◌>>=◌ Exec.statement process_found Exec.now process_loaded
    Runner.active_hold_for Runner.mark_processing Runner.advance Runner.completed_domains
    Runner.run_steps Runner.run_step Policy.action_for Runner.execute_step
    Credentials.step_credential Common.table_exists Exec.attempt Runner.after_step Exec.lift
    Exec.pure Credentials.delete_grants Credentials.release_identities Credentials.step_mfa_factor
    Credentials.step_oauth_identity Credentials.step_passkey Credentials.step_refresh_token
    Credentials.step_session Evidence.enabled_ids Evidence.fan_out Evidence.roll_up
    Evidence.step_audit_log Evidence.step_external_system Runner.finish_run Runner.log_destruction
    Runner.mark_done Vault.consent_key Vault.destroy_dek Vault.from_erasure_rule
    Vault.register_tombstone Vault.revoke_roles Vault.shred_consent Vault.stamp_key
    Vault.step_account Vault.step_subject_key Vault.truncate_user Policy.basis_for
    Policy.retention_for Policy.retention_rules
run_ends = refl

process_request-Evidenced_example :
    Evidenced "pr_1" (steps deps) (process_request deps "pr_1" (world due)).0.db
process_request-Evidenced_example = process_request-Evidenced deps "pr_1" (world due) refl run_ends

process_request_held_example :
    OnlyParks "pr_1" legal_hold held (process_request deps "pr_1" (world held)).0.db
process_request_held_example =
    process_request_held deps "pr_1" (request "pr_1" "ada" requested) (world held) refl refl

cancellation_wins_example :
    (process_loaded deps (request "pr_1" "ada" requested) (world withdrawn)).0.db ≡ withdrawn
cancellation_wins_example =
    cancellation_wins deps (request "pr_1" "ada" requested) (world withdrawn) refl refl

no_destinations : Evidence.enabled_ids due.destinations ≡ []
unfolding Evidence.enabled_ids
no_destinations = refl

gdpr-IsReadable : IsReadable gdpr
unfolding Vault.from_erasure_rule Policy.retention_for Policy.retention_rules
gdpr-IsReadable rule e = cc

process_request_completes_example :
    any (is_closed "pr_1") (process_request deps "pr_1" (later due 10)).0.db.requests ≡ true
process_request_completes_example =
    process_request_completes deps (request "pr_1" "ada" requested) due 10 (λ c. refl) refl refl
      refl refl no_destinations refl gdpr-IsReadable
