-- ===== src/Examples/Evidence.antt =====
-- The theorems on evidence, redaction and the JSON check, at concrete inputs.
use responsibility_pathway_r.Prelude.{
  ◌⊎◌, String, true, false, ◌≡◌, refl, ◌↔◌, Option, none, some, [], ◌∷◌, ◌++◌, map,
}
use responsibility_pathway_r.Env.{Env}
use responsibility_pathway_r.Errors.{ok}
use responsibility_pathway_r.Value.{Value, Fields, str, dict, end, entry, put, opt_str}
use responsibility_pathway_r.Redaction.{redact, default_policy}
use responsibility_pathway_r.Redaction.Clean.{IsClean, redact-IsClean}
use responsibility_pathway_r.JsonIdentity.{strict_identity}
use responsibility_pathway_r.JsonIdentity.Exact.{IsStrictJson, strict_identity_iff}
use responsibility_pathway_r.World.{EvidenceEvent}
use responsibility_pathway_r.Evidence.{verify_chain, seal, canonical_payload}
use responsibility_pathway_r.Evidence.Chain.{
  Linked, newest_first, canonical_text, verify_chain_iff, verify_chain-fork, history_fixed,
  Collision,
}
use responsibility_pathway_r.Examples.{env_example, dumps_example, previous_text}

abbrev payload_example : Fields
payload_example = entry "token" (str "s3cret") (entry "path" (str "note.txt") end)

abbrev redacted_example : Value
redacted_example = dict (entry "token" (str "[REDACTED]") (entry "path" (str "note.txt") end))

redact_example : IsClean (λ s. s) default_policy redacted_example
unfolding redact default_policy put
redact_example = redact-IsClean (λ s. s) default_policy (dict payload_example) redacted_example refl

strict_identity_example :
    (strict_identity (dict payload_example) ≡ ok (dict payload_example))
    ↔ ((dict payload_example ≡ dict payload_example) × IsStrictJson (dict payload_example))
strict_identity_example = strict_identity_iff (dict payload_example) (dict payload_example)

abbrev first_event : EvidenceEvent
first_event = seal env_example "pathway-1" "state_transition" "agent" redacted_example "now" none

abbrev second_event : EvidenceEvent
second_event =
    seal env_example "pathway-1" "state_transition" "agent" redacted_example "now" (some "")

verify_chain_example :
    ((verify_chain env_example (first_event ∷ second_event ∷ [])).0 ≡ true)
    ↔ Linked env_example none (first_event ∷ second_event ∷ [])
verify_chain_example = verify_chain_iff env_example (first_event ∷ second_event ∷ [])

abbrev other_event : EvidenceEvent
other_event =
    seal env_example "pathway-1" "state_transition" "operator" redacted_example "now" (some "")

verify_chain-fork_example :
    (verify_chain env_example (((first_event ∷ []) ++ second_event ∷ []) ++ other_event ∷ [])).0
    ≡ false
unfolding seal dumps_example
verify_chain-fork_example =
    verify_chain-fork env_example (first_event ∷ []) second_event other_event refl refl (λ e. cc)

-- An environment in which all texts have one hash.
abbrev colliding_env : Env
colliding_env = record env_example { sha256 = λ s. "h" }

abbrev early_event : EvidenceEvent
early_event = seal colliding_env "pathway-1" "registered" "agent" redacted_example "now" none

abbrev late_event : EvidenceEvent
late_event =
    seal colliding_env "pathway-1" "state_transition" "agent" redacted_example "now" (some "h")

previous_text-injective :
    (a b : Option String)
    → previous_text (some (opt_str a)) ≡ previous_text (some (opt_str b))
    → a ≡ b
previous_text-injective none none h = refl
previous_text-injective none (some b) h = cc
previous_text-injective (some a) none h = cc
previous_text-injective (some a) (some b) h = cc

canonical_text-previous :
    (e f : EvidenceEvent)
    → canonical_text colliding_env e ≡ canonical_text colliding_env f
    → e.previous_hash ≡ f.previous_hash
unfolding dumps_example canonical_payload
canonical_text-previous e f h = previous_text-injective e.previous_hash f.previous_hash h

-- Two histories of different lengths end in the same hash: there is a collision.
history_example :
    (map (canonical_text colliding_env) (newest_first (early_event ∷ []))
      ≡ map (canonical_text colliding_env) (newest_first (early_event ∷ late_event ∷ [])))
    ⊎ Collision colliding_env
        (map (canonical_text colliding_env) (newest_first (early_event ∷ [])))
        (map (canonical_text colliding_env) (newest_first (early_event ∷ late_event ∷ [])))
unfolding verify_chain seal
history_example =
    history_fixed colliding_env canonical_text-previous (early_event ∷ [])
      (early_event ∷ late_event ∷ []) refl refl refl
