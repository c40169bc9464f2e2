-- ===== src/Audit/States.antt =====
-- storage.py: the state of a pathway in the table, and what the updates do to it.
use responsibility_pathway_r.Prelude.{
  String, true, false, ◌≡◌, refl, ap, subst, Bool-cases, ◌∙◌, ◌||◌, inl, inr, Option, none, some,
  List, [], ◌∷◌, ◌++◌, any, update, find, arith, ◌==◌, eq_iff, if◌then◌else◌,
}
use responsibility_pathway_r.Errors.{key_error, or_raise}
use responsibility_pathway_r.Exec.{lift, pure, ◌>>=◌}
use responsibility_pathway_r.Models.{PathwayState}
use responsibility_pathway_r.World.{World, PathwayRow}
use responsibility_pathway_r.Store.{has_id, in_state, move, row_of, get_state}

-- The state of the first row with an identifier.
unfoldable pub state_in : String → List PathwayRow → Option PathwayState
state_in id [] = none
state_in id (r ∷ rs) = let rest = state_in id rs in if has_id id r then some r.state else rest

-- No identifier occurs twice, as the primary key demands.
abbrev pub IdsUnique : List PathwayRow → Type 0
IdsUnique [] = Unit
IdsUnique (r ∷ rs) = (any (has_id r.pathway_id) rs ≡ false) × IdsUnique rs

abbrev state_of : Option PathwayRow → Option PathwayState
state_of none = none
state_of (some r) = some r.state

find-state_in :
    (id : String) (rs : List PathwayRow) → state_of (find (has_id id) rs) ≡ state_in id rs
unfolding find state_in
find-state_in id [] = refl
find-state_in id (r ∷ rs) = ground (arith, find-state_in id rs)

read_state :
    (o : Option PathwayRow) (w : World)
    → (lift (or_raise o key_error) >>= λ r. pure r.state) w ≡ (or_raise (state_of o) key_error, w)
read_state none w = refl
read_state (some r) w = refl

-- `get_state` reads this state, and raises KeyError where there is none.
pub get_state-state_in :
    (id : String) (w : World) → get_state id w ≡ (or_raise (state_in id w.pathways) key_error, w)
unfolding get_state row_of
get_state-state_in id w =
    read_state (find (has_id id) w.pathways) w
    ∙ ap (λ o. (or_raise o key_error, w)) (find-state_in id w.pathways)

pub state_in-append :
    (id : String) (rs qs : List PathwayRow) (s : PathwayState)
    → state_in id rs ≡ some s
    → state_in id (rs ++ qs) ≡ some s
unfolding state_in
state_in-append id [] qs s h = ground arith
state_in-append id (r ∷ rs) qs s h = ground (arith, state_in-append id rs qs s)

pub any-append_one :
    (id : String) (rs : List PathwayRow) (r : PathwayRow)
    → any (has_id id) (rs ++ r ∷ []) ≡ (any (has_id id) rs || has_id id r)
unfolding any
any-append_one id [] r = ground arith
any-append_one id (q ∷ rs) r = ground (arith, any-append_one id rs r)

pub IdsUnique-append :
    (rs : List PathwayRow) (r : PathwayRow)
    → any (has_id r.pathway_id) rs ≡ false
    → IdsUnique rs
    → IdsUnique (rs ++ r ∷ [])
unfolding any
IdsUnique-append [] r h u = ground arith
IdsUnique-append (q ∷ rs) r h u = (
  any-append_one q.pathway_id rs r
      ∙ ground (arith, eq_iff r.pathway_id q.pathway_id, eq_iff q.pathway_id r.pathway_id),
  IdsUnique-append rs r (ground arith) u.1,
)

any-update :
    (id j : String) (s t : PathwayState) (rs : List PathwayRow)
    → any (has_id j) (update (in_state id s) (move t) rs) ≡ any (has_id j) rs
unfolding any update
any-update id j s t [] = refl
any-update id j s t (r ∷ rs) = ground (arith, any-update id j s t rs)

id-move :
    (id : String) (s t : PathwayState) (r : PathwayRow)
    → (if in_state id s r then move t r else r).pathway_id ≡ r.pathway_id
id-move id s t r = ground arith

-- A change of state keeps the identifiers.
pub IdsUnique-update :
    (id : String) (s t : PathwayState) (rs : List PathwayRow)
    → IdsUnique rs
    → IdsUnique (update (in_state id s) (move t) rs)
unfolding update
IdsUnique-update id s t [] u = tt
IdsUnique-update id s t (r ∷ rs) u = (
  rw (id-move id s t r) (any-update id r.pathway_id s t rs ∙ u.0),
  IdsUnique-update id s t rs u.1,
)

pub state_in-none :
    (id : String) (rs : List PathwayRow) → any (has_id id) rs ≡ false → state_in id rs ≡ none
unfolding state_in any
state_in-none id [] h = refl
state_in-none id (r ∷ rs) h = ground (arith, state_in-none id rs)

-- Another pathway keeps its state.
pub state_in-update_other :
    (id j : String) (s t : PathwayState) (rs : List PathwayRow)
    → (id == j) ≡ false
    → state_in j (update (in_state id s) (move t) rs) ≡ state_in j rs
unfolding state_in update
state_in-update_other id j s t [] h = refl
state_in-update_other id j s t (r ∷ rs) h = ground (
  arith,
  state_in-update_other id j s t rs,
  eq_iff r.pathway_id j,
  eq_iff r.pathway_id id,
  eq_iff id j,
)

any-in_state :
    (id : String) (s : PathwayState) (rs : List PathwayRow)
    → any (in_state id s) rs ≡ true
    → any (has_id id) rs ≡ true
unfolding any
any-in_state id s [] h = ground arith
any-in_state id s (r ∷ rs) h = ground (arith, any-in_state id s rs)

-- The pathway itself was in the expected state, and is in the target state.
pub state_in-update_self :
    (id : String) (s t : PathwayState) (rs : List PathwayRow)
    → IdsUnique rs
    → any (in_state id s) rs ≡ true
    → (state_in id rs ≡ some s) × (state_in id (update (in_state id s) (move t) rs) ≡ some t)
unfolding state_in update any
state_in-update_self id s t [] u h = ground arith
state_in-update_self id s t (r ∷ rs) u h = elim (Bool-cases (has_id id r)) [
  | inl here ↦
      let alone : any (has_id id) rs ≡ false =
        subst (λ k. any (has_id k) rs ≡ false) ((eq_iff r.pathway_id id).0 here) u.0 in
      ground (arith, any-in_state id s rs)
  | inr there ↦ ground (arith, state_in-update_self id s t rs u.1)
]
