-- ===== src/Examples.antt =====
-- Concrete surroundings, a definition and tables on which the theorems are tried.
pub mod Components
pub mod Evidence
pub mod Ledger
pub mod Runs
pub mod Tenants
pub mod Streams
pub mod Sessions
pub mod Messages
pub mod McpCalls
pub mod McpStreams
use responsibility_pathway_r.Prelude.{
  String, ℕ, Bool, false, true, Option, none, some, List, [], ◌∷◌, refl, ◌≡◌,
}
use responsibility_pathway_r.Value.{Value, Fields, null, str, dict, end, entry, get}
use responsibility_pathway_r.Models.{PathwayState, approved, approval_required, trusted_internal}
use responsibility_pathway_r.Models.Definition.{PathwayDefinition, to_dict}
use responsibility_pathway_r.Redaction.{default_policy}
use responsibility_pathway_r.Execution.{ExecutionRequest}
use responsibility_pathway_r.Env.{Env}
use responsibility_pathway_r.World.{World, PathwayRow, AttemptRecord}
use responsibility_pathway_r.Runtime.{Config}

abbrev pub text_example : Value → String
text_example (str s) = s
text_example _ = ""

pub text_example-str : (s : String) → text_example (str s) ≡ s
text_example-str s = refl

-- A text that shows the previous hash.
abbrev pub previous_text : Option Value → String
previous_text (some (str s)) = String.◌∷◌ ">" s
previous_text _ = ""

unfoldable pub dumps_example : Value → String
unfolding get
dumps_example (dict fs) = previous_text (get "previous_hash" fs)
dumps_example _ = ""

abbrev pub env_example : Env
env_example = record {
  text = text_example;
  casefold = λ s. s;
  dumps = dumps_example;
  sha256 = λ s. s;
  now = λ n. "2026-01-01T00:00:00+00:00";
  write_fails = λ n. false;
}

abbrev pub config_example : Config
config_example = record { env = env_example; policy = default_policy }

abbrev pub definition_example : PathwayDefinition
definition_example = record {
  pathway_id = "pathway-1";
  action_name = "replace_text_file";
  action_class = approval_required;
  environment_trust = trusted_internal;
  decision_owner = "owner";
  approval_authority = some "approver";
  execution_actor = "agent";
  stop_authority = "operator";
  evidence_owner = "auditor";
  repair_owner = "repairer";
  resume_authority = "resumer";
  human_return_point = "desk";
  residual_owner = "owner";
  metadata = end;
  responsibility_route = none;
}

abbrev pub row_example : PathwayState → PathwayRow
row_example s = record {
  pathway_id = "pathway-1";
  definition = to_dict definition_example;
  fingerprint = "f";
  state = s;
  idempotency_key = "key-1";
}

abbrev pub empty_world : World
empty_world = record { pathways = []; events = []; attempts = []; writes = 0; ticks = 0 }

abbrev pub world_example : PathwayState → List AttemptRecord → World
world_example s attempts = record {
  pathways = row_example s ∷ [];
  events = [];
  attempts = attempts;
  writes = 0;
  ticks = 0;
}

abbrev pub request_example : ExecutionRequest
request_example = record {
  operation_id = "operation-1";
  attempt_id = "attempt-1";
  idempotency_key = "run-1";
  action = "replace_text_file";
  parameters = entry "path" (str "note.txt") end;
}
