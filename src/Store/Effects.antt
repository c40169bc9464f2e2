-- ===== src/Store/Effects.antt =====
-- storage.py: what each write may have done to the tables when it is over, whether it returned or
-- raised.
use responsibility_pathway_r.Prelude.{
  String, true, false, ◌≡◌, refl, ◌⊎◌, inl, inr, Bool-cases, is_blank, not, subst, Option, none,
  some, [], ◌∷◌, ◌++◌, any, update, find, suc, arith, ◌==◌,
}
use responsibility_pathway_r.Models.{PathwayState}
use responsibility_pathway_r.Models.Definition.{PathwayDefinition, to_dict}
use responsibility_pathway_r.Env.{Env}
use responsibility_pathway_r.World.{World, PathwayRow, EvidenceEvent, transaction}
use responsibility_pathway_r.World.Transactions.{transaction-ok}
use responsibility_pathway_r.Errors.{ok, value_error}
use responsibility_pathway_r.Exec.{gets, require, ◌>>=◌}
use responsibility_pathway_r.Store.{
  has_id, in_state, move, insert_event, create_or_replay_row, create_or_replay_pathway,
  transition_with_event, append_event, fingerprint,
}

-- The pathways and the events are as they were.
abbrev pub Untouched : World → World → Type 0
Untouched w v = (v.pathways ≡ w.pathways) × (v.events ≡ w.events)

-- An event was stored, and nothing else.
abbrev pub Appended : EvidenceEvent → World → World → Type 0
Appended e w v = (v.pathways ≡ w.pathways) × (v.events ≡ w.events ++ e ∷ [])

-- A state was changed and an event was stored, together.
abbrev pub Moved : String → PathwayState → PathwayState → EvidenceEvent → World → World → Type 0
Moved id s t e w v =
    (any (in_state id s) w.pathways ≡ true)
    × (v.pathways ≡ update (in_state id s) (move t) w.pathways)
    × (v.events ≡ w.events ++ e ∷ [])

-- A pathway was added, under a new identifier.
abbrev pub Created : PathwayRow → World → World → Type 0
Created r w v =
    (any (has_id r.pathway_id) w.pathways ≡ false)
    × (v.pathways ≡ w.pathways ++ r ∷ [])
    × (v.events ≡ w.events)

pub append_event_effect :
    (env : Env) (e : EvidenceEvent) (w : World)
    → Untouched w (append_event env e w).1 ⊎ Appended e w (append_event env e w).1
unfolding append_event transaction insert_event
append_event_effect env e w = ground arith

pub transition_with_event_effect :
    (env : Env) (id : String) (s t : PathwayState) (e : EvidenceEvent) (w : World)
    → Untouched w (transition_with_event env id s t e w).1
      ⊎ Moved id s t e w (transition_with_event env id s t e w).1
unfolding transition_with_event transaction insert_event
transition_with_event_effect env id s t e w = ground arith

-- The row that a registration adds.
abbrev pub new_row : Env → PathwayDefinition → PathwayState → String → PathwayRow
new_row env d s key = record {
  pathway_id = d.pathway_id;
  definition = to_dict d;
  fingerprint = fingerprint env d;
  state = s;
  idempotency_key = key;
}

create_row_effect :
    (env : Env) (d : PathwayDefinition) (s : PathwayState) (key : String) (o : Option PathwayRow)
    (w : World)
    → Untouched w (create_or_replay_row env d s key o w).1
      ⊎ Created (new_row env d s key) w (create_or_replay_row env d s key o w).1
unfolding create_or_replay_row
create_row_effect env d s key none w = ground arith
create_row_effect env d s key (some r) w = inl (refl, refl)

pub create_effect :
    (env : Env) (d : PathwayDefinition) (s : PathwayState) (key : String) (w : World)
    → Untouched w (create_or_replay_pathway env d s key w).1
      ⊎ Created (new_row env d s key) w (create_or_replay_pathway env d s key w).1
unfolding create_or_replay_pathway transaction
create_effect env d s key w = ground (
  arith,
  create_row_effect env d s key (find (λ r. r.idempotency_key == key) w.pathways)
      (record w { writes = suc w.writes }),
)

create_row-new :
    (env : Env) (d : PathwayDefinition) (s t : PathwayState) (key : String) (o : Option PathwayRow)
    (w v : World)
    → create_or_replay_row env d s key o w ≡ (ok (false, t), v)
    → t ≡ s
unfolding create_or_replay_row
create_row-new env d s t key none w v h = ground arith
create_row-new env d s t key (some r) w v h = ground arith

-- A pathway that is no replay is in the state that the registration gave it.
pub create-new :
    (env : Env) (d : PathwayDefinition) (s t : PathwayState) (key : String) (w v : World)
    → create_or_replay_pathway env d s key w ≡ (ok (false, t), v)
    → t ≡ s
unfolding create_or_replay_pathway
create-new env d s t key w v h = elim (Bool-cases (is_blank key)) [
  | inl blank ↦ ground arith
  | inr given ↦
      create_row-new env d s t key (find (λ r. r.idempotency_key == key) w.pathways)
        (record w { writes = suc w.writes }) v
        (transaction-ok env
          (gets (λ u. find (λ r. r.idempotency_key == key) u.pathways)
            >>= create_or_replay_row env d s key)
          w (false, t) v
          (subst
            (λ b.
              (require (not b) value_error >>= λ _. transaction env (
                  gets (λ u. find (λ r. r.idempotency_key == key) u.pathways)
                  >>= create_or_replay_row env d s key))
                w
              ≡ (ok (false, t), v))
            given h))
]
