-- ===== src/Privacy/System/Sequence.antt =====
-- A relation that the operations keep is kept by every sequence of them.
use dilion.Base.{String, List, [], ◌∷◌}
use dilion.Exec.{pure, attempt, ◌>>=◌}
use dilion.Exec.Grows.{Grows, Grows-bind, Grows-attempt, Grows-pure}
use dilion.Privacy.Db.{Db, M, Deps}
use dilion.Privacy.Pipeline.Runner.{process_request}
use dilion.Privacy.System.Ops.{
  Operation, create, cancel, place_hold, lift_hold, run_pipeline, run_tasks, run_retention, perform,
  perform_all,
}
use dilion.Privacy.Tasks.Delivery.{Peers}
use dilion.Privacy.System.Workers.{run_tasks_once-Safe, sweep-Safe, run_pipeline_once-Safe}
use dilion.Privacy.System.Safe.{
  IsServiceSafe, create_request-Safe, cancel_request-Safe, create_hold-Safe, release_hold-Safe,
}

module _ {R : Db → Db → Type 0} {deps : Deps} (k : IsServiceSafe deps R) (peers : Peers)
    (runs : (id : String) → Grows R (process_request deps id)) where
  tried : {A : Type 0} (m : M A) → Grows R m → Grows R (attempt m >>= λ _. pure tt)
  tried m h = Grows-bind k.pre _ _ (Grows-attempt k.pre m h) (λ _. Grows-pure k.pre _)

  perform-Safe : (o : Operation) → Grows R (perform deps peers o)
  unfolding perform
  perform-Safe (create input) = tried _ (create_request-Safe deps k input)
  perform-Safe (cancel id) = tried _ (cancel_request-Safe deps k id)
  perform-Safe (place_hold input) = tried _ (create_hold-Safe deps k input)
  perform-Safe (lift_hold id by) = tried _ (release_hold-Safe deps k id by)
  perform-Safe (run_pipeline taken) =
      tried _ (run_pipeline_once-Safe k.pre k.elsewhere deps runs taken)
  perform-Safe run_tasks = tried _ (run_tasks_once-Safe k.pre k.elsewhere peers)
  perform-Safe (run_retention batch) = tried _ (sweep-Safe k.pre k.elsewhere batch)

  pub perform_all-Safe : (os : List Operation) → Grows R (perform_all deps peers os)
  unfolding perform_all
  perform_all-Safe [] = Grows-pure k.pre _
  perform_all-Safe (o ∷ os) = Grows-bind k.pre _ _ (perform-Safe o) (λ _. perform_all-Safe os)
