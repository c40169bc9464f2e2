-- ===== src/Examples/Components.antt =====
-- The theorems on single components, at concrete inputs.
use responsibility_pathway_r.Prelude.{true, false, ◌≡◌, ◌↔◌, ◌⊎◌, strip, is_blank}
use responsibility_pathway_r.Errors.{ok, err, invalid_transition}
use responsibility_pathway_r.Models.{PathwayState, approved, running, awaiting_approval}
use responsibility_pathway_r.Models.Definition.{to_dict, from_dict}
use responsibility_pathway_r.Models.Definition.RoundTrip.{from_dict-to_dict}
use responsibility_pathway_r.StateMachine.{ensure_transition, is_member, terminal_states}
use responsibility_pathway_r.StateMachine.Formal.{allowed, terminal, ensure_transition-allowed}
use responsibility_pathway_r.Authority.{authorize_transition}
use responsibility_pathway_r.Authority.Laws.{MayMove, authorize_transition_iff}
use responsibility_pathway_r.Inspection.{inspect_pathway}
use responsibility_pathway_r.Inspection.Laws.{IsWellFormed, valid_iff}
use responsibility_pathway_r.Examples.{definition_example, text_example, text_example-str}

from_dict_example : from_dict text_example (to_dict definition_example) ≡ ok definition_example
from_dict_example = from_dict-to_dict text_example text_example-str definition_example

ensure_transition_example :
    ((ensure_transition approved running ≡ ok tt) ↔ (allowed approved running ≡ true))
    × (is_member approved terminal_states ≡ terminal approved)
    × (((terminal approved ≡ false) × (u : PathwayState) × (ensure_transition approved u ≡ ok tt))
        ⊎ ((terminal approved ≡ true)
            × (ensure_transition approved running ≡ err invalid_transition)))
ensure_transition_example = ensure_transition-allowed approved running

authorize_transition_example :
    (authorize_transition definition_example awaiting_approval approved " approver " ≡ ok tt) ↔ (
      (is_blank " approver " ≡ false)
      × MayMove definition_example (strip " approver ") awaiting_approval approved)
authorize_transition_example =
    authorize_transition_iff definition_example awaiting_approval approved " approver "

inspect_pathway_example :
    ((inspect_pathway definition_example).valid ≡ true) ↔ IsWellFormed definition_example
inspect_pathway_example = valid_iff definition_example
