-- ===== src/Store.antt =====
-- storage.py: SQLiteStore, over the tables of the state. Its constraints are those of the schema: the
-- primary key and the unique idempotency key of `pathways`; the foreign key and the unique hash of
-- `evidence_events`.
pub mod Effects
use responsibility_pathway_r.Prelude.{
  String, Bool, true, false, not, ◌&&◌, ◌||◌, Option, none, some, List, [], ◌∷◌, ◌++◌, ◌==◌, any,
  find, select, update, last, is_blank, if◌then◌else◌,
}
use responsibility_pathway_r.Errors.{
  Result, ok, err, value_error, key_error, runtime_error, integrity_error,
  idempotency_conflict_error, or_raise,
}
use responsibility_pathway_r.Exec.{pure, raise, lift, gets, require, ◌>>=◌, ◌>>◌}
use responsibility_pathway_r.Value.{dict}
use responsibility_pathway_r.Models.{PathwayState, ◌is◌}
use responsibility_pathway_r.Models.Definition.{PathwayDefinition, to_dict, from_dict}
use responsibility_pathway_r.Env.{Env}
use responsibility_pathway_r.World.{World, PathwayRow, EvidenceEvent, M, transaction}

abbrev pub has_id : String → PathwayRow → Bool
has_id pathway_id r = r.pathway_id == pathway_id

-- `_fingerprint`, of the canonical JSON of the definition
unfoldable pub fingerprint : Env → PathwayDefinition → String
fingerprint env d = env.sha256 (env.dumps (dict (to_dict d)))

unfoldable pub row_of : String → World → Option PathwayRow
unfolding find
row_of pathway_id w = find (has_id pathway_id) w.pathways

-- `INSERT INTO pathways`
insert_pathway : PathwayRow → M (Unit {0})
unfolding any
insert_pathway r w =
    if any (has_id r.pathway_id) w.pathways
      || any (λ q. q.idempotency_key == r.idempotency_key) w.pathways
    then (err integrity_error, w)
    else (ok tt, record w { pathways = w.pathways ++ r ∷ [] })

-- `INSERT INTO evidence_events`
unfoldable pub insert_event : EvidenceEvent → M (Unit {0})
unfolding any
insert_event e w =
    if not (any (has_id e.pathway_id) w.pathways)
      || any (λ f. f.event_hash == e.event_hash) w.events
    then (err integrity_error, w)
    else (ok tt, record w { events = w.events ++ e ∷ [] })

-- The row that an idempotency key is found in: a replay, or a conflict.
replay_row : PathwayDefinition → String → PathwayRow → Result (Bool × PathwayState)
replay_row d fp r =
    if not (r.pathway_id == d.pathway_id) || not (r.fingerprint == fp)
    then err idempotency_conflict_error
    else ok (true, r.state)

create_or_replay_row :
    Env → PathwayDefinition → PathwayState → String → Option PathwayRow → M (Bool × PathwayState)
unfolding replay_row insert_pathway
create_or_replay_row env d state key (some r) = lift (replay_row d (fingerprint env d) r)
create_or_replay_row env d state key none = do
  insert_pathway (record {
    pathway_id = d.pathway_id;
    definition = to_dict d;
    fingerprint = fingerprint env d;
    state = state;
    idempotency_key = key;
  })
  pure (false, state)

unfoldable pub create_or_replay_pathway :
    Env → PathwayDefinition → PathwayState → String → M (Bool × PathwayState)
unfolding create_or_replay_row find
create_or_replay_pathway env d state key = do
  require (not (is_blank key)) value_error
  transaction env (do
    row ← gets (λ w. find (λ r. r.idempotency_key == key) w.pathways)
    create_or_replay_row env d state key row)

-- `get_definition`
unfoldable pub get_definition : Env → String → M PathwayDefinition
get_definition env pathway_id = do
  row ← gets (row_of pathway_id)
  r ← lift (or_raise row key_error)
  lift (from_dict env.text r.definition)

-- `get_state`
unfoldable pub get_state : String → M PathwayState
get_state pathway_id = do
  row ← gets (row_of pathway_id)
  r ← lift (or_raise row key_error)
  pure r.state

abbrev pub in_state : String → PathwayState → PathwayRow → Bool
in_state pathway_id s r = r.pathway_id == pathway_id && r.state is s

-- `UPDATE pathways SET state = ? WHERE pathway_id = ? AND state = ?`
abbrev pub move : PathwayState → PathwayRow → PathwayRow
move target r = record r { state = target }

set_state : String → PathwayState → PathwayState → M (Unit {0})
unfolding any update row_of
set_state pathway_id expected target w =
    if any (in_state pathway_id expected) w.pathways
    then (
      ok tt,
      record w { pathways = update (in_state pathway_id expected) (move target) w.pathways },
    )
    else (lift (or_raise (row_of pathway_id w) key_error) >>= λ _. raise runtime_error) w

unfoldable pub transition_with_event :
    Env → String → PathwayState → PathwayState → EvidenceEvent → M (Unit {0})
unfolding set_state
transition_with_event env pathway_id expected target event =
    transaction env (do set_state pathway_id expected target; insert_event event)

unfoldable pub append_event : Env → EvidenceEvent → M (Unit {0})
append_event env event = transaction env (insert_event event)

abbrev pub of_pathway : String → EvidenceEvent → Bool
of_pathway pathway_id e = e.pathway_id == pathway_id

-- `events`: in the order of the sequence numbers
unfoldable pub events_of : String → World → List EvidenceEvent
unfolding select
events_of pathway_id w = select (of_pathway pathway_id) w.events

unfoldable pub hash_of_last : Option EvidenceEvent → Option String
hash_of_last none = none
hash_of_last (some e) = some e.event_hash

-- `latest_event_hash`
unfoldable pub latest_event_hash : String → World → Option String
unfolding hash_of_last events_of last
latest_event_hash pathway_id w = hash_of_last (last (events_of pathway_id w))
