-- ===== src/Evidence.antt =====
-- evidence.py: hash-chained evidence events.
pub mod Chain
use responsibility_pathway_r.Prelude.{
  ℕ, zero, suc, String, Bool, true, false, not, Option, none, some, List, [], ◌∷◌, ◌==◌,
  if◌then◌else◌,
}
use responsibility_pathway_r.Errors.{Result, ok}
use responsibility_pathway_r.Exec.{lift, pure, ◌>>=◌}
use responsibility_pathway_r.Value.{Value, Fields, str, dict, end, entry, opt_str}
use responsibility_pathway_r.Redaction.{RedactionPolicy, redact}
use responsibility_pathway_r.Env.{Env}
use responsibility_pathway_r.World.{EvidenceEvent, M, read_clock}

-- The dictionary that `_canonical_payload` serialises.
unfoldable pub canonical_payload : String → String → String → Value → String → Option String → Value
canonical_payload pathway_id event_type actor payload occurred_at previous_hash = dict (
    entry "pathway_id" (str pathway_id) (
      entry "event_type" (str event_type) (
        entry "actor" (str actor) (
          entry "payload" payload (
            entry "occurred_at" (str occurred_at)
              (entry "previous_hash" (opt_str previous_hash) end))))))

abbrev pub same_hash : Option String → Option String → Bool
same_hash none none = true
same_hash none (some _) = false
same_hash (some _) none = false
same_hash (some a) (some b) = a == b

-- `verify_chain`: whether the chain holds, the index of the failure and its reason.
abbrev pub Verdict : Type 0
Verdict = Bool × Option ℕ × Option String

module _ (env : Env) where
  -- `hashlib.sha256(canonical.encode("utf-8")).hexdigest()`
  unfoldable pub digest : Value → String
  digest v = env.sha256 (env.dumps v)

  unfoldable pub hash_of : EvidenceEvent → String
  unfolding digest canonical_payload
  hash_of e =
      digest (
        canonical_payload e.pathway_id e.event_type e.actor e.payload e.occurred_at e.previous_hash)

  -- The event with its hash, from a payload that is already redacted and the time.
  unfoldable pub seal : String → String → String → Value → String → Option String → EvidenceEvent
  unfolding digest canonical_payload
  seal pathway_id event_type actor payload occurred_at previous_hash = record {
    pathway_id = pathway_id;
    event_type = event_type;
    actor = actor;
    payload = payload;
    occurred_at = occurred_at;
    previous_hash = previous_hash;
    event_hash =
        digest (canonical_payload pathway_id event_type actor payload occurred_at previous_hash);
  }

  unfoldable pub build_event :
      RedactionPolicy → String → String → String → Fields → Option String → M EvidenceEvent
  unfolding seal read_clock
  build_event policy pathway_id event_type actor payload previous_hash = do
    safe_payload ← lift (redact env.casefold policy (dict payload))
    occurred_at ← read_clock env
    pure (seal pathway_id event_type actor safe_payload occurred_at previous_hash)

  unfoldable pub verify_event : EvidenceEvent → Bool
  unfolding hash_of
  verify_event e = hash_of e == e.event_hash

  unfoldable pub verify_from : ℕ → Option String → List EvidenceEvent → Verdict
  unfolding verify_event
  verify_from index previous [] = (true, none, none)
  verify_from index previous (e ∷ es) =
      let rest = verify_from (suc index) (some e.event_hash) es in
      if not (same_hash e.previous_hash previous)
      then (false, some index, some "previous_hash_mismatch")
      else if not (verify_event e)
      then (false, some index, some "event_hash_mismatch")
      else rest

  unfoldable pub verify_chain : List EvidenceEvent → Verdict
  unfolding verify_from
  verify_chain = verify_from 0 none
