-- ===== src/Principal.antt =====
-- principal.py: who a credential stands for.
use responsibility_pathway_r.Prelude.{
  String, ◌||◌, ◌&&◌, Option, none, some, List, ◌==◌, find, is_blank, is_empty, strip,
  if◌then◌else◌,
}
use responsibility_pathway_r.Errors.{Result, ok, err, principal_error}

pub record Principal : Type 0 where
  pub subject : String
  pub issuer : String
  pub authentication_method : String

-- `Principal.__post_init__`
unfoldable pub check_principal : Principal → Result Principal
check_principal p =
    if is_blank p.subject || is_blank p.issuer || is_blank p.authentication_method
    then err principal_error
    else ok p

-- A binding of an issuer and a subject to an actor.
pub record Binding : Type 0 where
  pub issuer : String
  pub subject : String
  pub actor : String

bound_text : Option Binding → String
bound_text none = ""
bound_text (some b) = b.actor

-- `StaticActorBinding.actor_for`
unfoldable pub actor_for : List Binding → Principal → Result String
unfolding find bound_text strip
actor_for bindings p =
    let actor =
      strip (bound_text (find (λ b. b.issuer == p.issuer && b.subject == p.subject) bindings)) in
    if is_empty actor then err principal_error else ok actor
