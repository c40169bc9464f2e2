-- ===== src/Compensation.antt =====
-- compensation.py: the plan of a compensation, and the planner that never infers one.
use responsibility_pathway_r.Prelude.{String, Option, none, some}
use responsibility_pathway_r.Value.{Fields, end}
use responsibility_pathway_r.Execution.{ExecutionRequest, ExecutionResult}

pub data CompensationStatus : Type 0 where
  not_applicable proposed requires_human_gate : CompensationStatus

pub record CompensationPlan : Type 0 where
  pub status : CompensationStatus
  pub request : Option ExecutionRequest
  pub reason : Option String
  pub evidence : Fields

-- `NoAutomaticCompensation.propose`
abbrev pub propose : ExecutionRequest → ExecutionResult → CompensationPlan
propose original_request original_result = record {
  status = requires_human_gate;
  request = none;
  reason = some "compensating action requires explicit design and approval";
  evidence = end;
}
