-- ===== src/Examples/Ledger.antt =====
-- The theorems on attempts and their execution, at concrete inputs.
use responsibility_pathway_r.Prelude.{
  String, Bool, true, false, ◌≡◌, ◌≢◌, arith, refl, suc, Option, none, some, List, [], ◌∷◌,
}
use responsibility_pathway_r.Errors.{ok, err, authority_error}
use responsibility_pathway_r.Exec.{pure}
use responsibility_pathway_r.Value.{str, end, entry}
use responsibility_pathway_r.Models.{approved, running, write_status_unknown, completed}
use responsibility_pathway_r.Execution.{
  ExecutionRequest, ExecutionResult, succeeded, failed, result_value, result_of_value,
}
use responsibility_pathway_r.World.{World, AttemptRecord, M}
use responsibility_pathway_r.Attempts.{begin, finish, started_record, with_result}
use responsibility_pathway_r.Attempts.Replay.{finish-begin}
use responsibility_pathway_r.Runtime.Execute.{execute}
use responsibility_pathway_r.Runtime.Finish.{persist}
use responsibility_pathway_r.Runtime.Execute.Replay.{execute-stored, execute-unresolved}
use responsibility_pathway_r.Runtime.Finish.Settled.{persist-unverified}
use responsibility_pathway_r.Audit.States.{state_in}
use responsibility_pathway_r.Examples.{
  env_example, config_example, text_example, text_example-str, dumps_example, world_example,
  request_example,
}

abbrev pub failed_result : ExecutionResult
failed_result = record {
  status = failed;
  evidence = entry "code" (str "E1") end;
  readback = none;
  reason = some "refused";
}

abbrev pub begun_record : AttemptRecord
begun_record = started_record "pathway-1" request_example ""

abbrev after_begin : World
after_begin = record (world_example approved (begun_record ∷ [])) { writes = 1 }

abbrev pub finished_record : AttemptRecord
finished_record = with_result failed (result_value failed_result) begun_record

abbrev after_finish : World
after_finish = record (world_example approved (finished_record ∷ [])) { writes = 2 }

finish-begin_example :
    (begin env_example "pathway-1" request_example after_finish
      ≡ (ok (true, finished_record), record after_finish { writes = 3 }))
    × (result_of_value text_example (result_value failed_result) ≡ ok failed_result)
unfolding begin finish dumps_example responsibility_pathway_r.Attempts.request_fingerprint
    responsibility_pathway_r.JsonIdentity.strict_identity
    responsibility_pathway_r.Attempts.request_value responsibility_pathway_r.World.transaction
    responsibility_pathway_r.Attempts.strict_result_json result_value
    responsibility_pathway_r.Attempts.get_attempt responsibility_pathway_r.Attempts.attempt_of
finish-begin_example =
    finish-begin env_example "pathway-1" request_example failed_result (world_example approved [])
      after_begin after_finish false begun_record finished_record text_example-str refl refl refl
      refl

abbrev pub failing_executor : ExecutionRequest → M ExecutionResult
failing_executor q = pure failed_result

abbrev raising_executor : ExecutionRequest → M ExecutionResult
raising_executor q w = (err authority_error, w)

abbrev after_replay : World
after_replay = record after_finish { writes = 3 }

execute-stored_example :
    execute config_example failing_executor "pathway-1" request_example "agent" after_finish
    ≡ execute config_example raising_executor "pathway-1" request_example "agent" after_finish
unfolding begin responsibility_pathway_r.Attempts.request_fingerprint
    responsibility_pathway_r.JsonIdentity.strict_identity
    responsibility_pathway_r.Attempts.request_value dumps_example
    responsibility_pathway_r.World.transaction
execute-stored_example =
    execute-stored config_example "pathway-1" request_example "agent" after_finish after_replay
      finished_record refl failing_executor raising_executor (result_value failed_result) refl

abbrev lost_world : World
lost_world = record (world_example write_status_unknown (begun_record ∷ [])) { writes = 1 }

execute-unresolved_example :
    execute config_example failing_executor "pathway-1" request_example "agent" lost_world
    ≡ execute config_example raising_executor "pathway-1" request_example "agent" lost_world
unfolding begin responsibility_pathway_r.Attempts.request_fingerprint
    responsibility_pathway_r.JsonIdentity.strict_identity
    responsibility_pathway_r.Attempts.request_value dumps_example
    responsibility_pathway_r.World.transaction state_in
    responsibility_pathway_r.Models.PathwayState-discrete
execute-unresolved_example =
    execute-unresolved config_example "pathway-1" request_example "agent" lost_world
      (record lost_world { writes = 2 }) begun_record refl failing_executor raising_executor
      write_status_unknown refl refl refl

abbrev unverified_result : ExecutionResult
unverified_result = record {
  status = succeeded;
  evidence = end;
  readback = some (record { verified = false; observed = end; reason = none });
  reason = none;
}

abbrev running_world : World
running_world = record (world_example running (begun_record ∷ [])) { writes = 1 }

persist-unverified_example :
    state_in "pathway-1"
      (persist config_example "pathway-1" request_example "agent" unverified_result
        running_world).1.pathways
    ≢ some completed
unfolding state_in responsibility_pathway_r.Runtime.Finish.is_verified
    responsibility_pathway_r.Prelude.any
persist-unverified_example =
    persist-unverified config_example "pathway-1" "pathway-1" request_example "agent"
      unverified_result (λ h. refl) running_world (refl, tt) (λ e. ground arith)
