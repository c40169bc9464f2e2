-- ===== src/Audit/Verified.antt =====
-- The chains of evidence that the runtime writes, verified again.
use responsibility_pathway_r.Prelude.{
  String, true, ◌≡◌, ◌∙◌, sym, ap, subst, refl, inl, inr, Option, none, some, List, [], ◌∷◌, ◌++◌,
  select, last, arith, eq_iff, Bool-cases, if◌then◌else◌,
}
use responsibility_pathway_r.Exec.Respects.{Order}
use responsibility_pathway_r.Value.{Fields}
use responsibility_pathway_r.Models.{PathwayState}
use responsibility_pathway_r.Models.Definition.{PathwayDefinition}
use responsibility_pathway_r.World.{World, EvidenceEvent}
use responsibility_pathway_r.Evidence.{seal, verify_chain}
use responsibility_pathway_r.Evidence.Chain.{head_after, verify_chain-append}
use responsibility_pathway_r.Store.{
  create_or_replay_pathway, of_pathway, events_of, hash_of_last, latest_event_hash,
}
use responsibility_pathway_r.Store.Effects.{Untouched, create_effect}
use responsibility_pathway_r.Attempts.{
  begin, finish, mark_result_persistence_unknown, discard_started,
}
use responsibility_pathway_r.Attempts.Effects.{
  begin-Untouched, finish-Untouched, mark-Untouched, discard-Untouched,
}
use responsibility_pathway_r.Runtime.{Config, record_event, move_with_event, transition_payload}
use responsibility_pathway_r.Runtime.Effects.{Stored, record_event_effect, move_with_event_effect}
use responsibility_pathway_r.Runtime.Respects.{Writes}
use responsibility_pathway_r.Audit.Calls.{Call, run_calls, AllBehave, run_calls-rel}

-- The hash of the last event is the hash at which the chain goes on.
last-head_after :
    (h : Option String) (e : EvidenceEvent) (es : List EvidenceEvent)
    → hash_of_last (last (e ∷ es)) ≡ head_after h (e ∷ es)
unfolding hash_of_last last
last-head_after h e [] = refl
last-head_after h e (f ∷ es) = last-head_after (some e.event_hash) f es

latest-head_after : (es : List EvidenceEvent) → hash_of_last (last es) ≡ head_after none es
unfolding hash_of_last last
latest-head_after [] = refl
latest-head_after (e ∷ es) = last-head_after none e es

select-append :
    (j : String) (es : List EvidenceEvent) (e : EvidenceEvent)
    → select (of_pathway j) (es ++ e ∷ [])
      ≡ (if of_pathway j e then select (of_pathway j) es ++ e ∷ [] else select (of_pathway j) es)
unfolding select
select-append j [] e = ground arith
select-append j (x ∷ es) e = ground (arith, select-append j es e)

module _ (c : Config) where
  -- `verify_evidence` finds every chain of the database valid.
  abbrev pub AllVerified : List EvidenceEvent → Type 0
  AllVerified es = (id : String) → (verify_chain c.env (select (of_pathway id) es)).0 ≡ true

  abbrev pub VerifiedOrder : Order World
  VerifiedOrder = record {
    rel = λ w v. AllVerified w.events → AllVerified v.events;
    rel_refl = λ w h. h;
    rel_trans = λ w v x f g h. g (f h);
  }

  Untouched-Verified : (w v : World) → Untouched w v → AllVerified w.events → AllVerified v.events
  Untouched-Verified w v u h = subst AllVerified (sym u.1) h

  module _ (id kind actor : String) (payload : Fields) (w : World) (e : EvidenceEvent)
      (st : Stored c id kind actor payload w e) where
    chained :
        e
        ≡ seal c.env id kind actor st.safe st.now
            (head_after none (select (of_pathway id) w.events))
    unfolding latest_event_hash events_of
    chained =
        st.sealed
        ∙ ap (seal c.env id kind actor st.safe st.now)
            (latest-head_after (select (of_pathway id) w.events))

    own_chain :
        AllVerified w.events
        → (verify_chain c.env (select (of_pathway id) w.events ++ e ∷ [])).0 ≡ true
    own_chain h =
        subst (λ x. (verify_chain c.env (select (of_pathway id) w.events ++ x ∷ [])).0 ≡ true)
          (sym chained)
          (verify_chain-append c.env (select (of_pathway id) w.events) id kind actor st.safe st.now
            (h id))

    owner : e.pathway_id ≡ id
    unfolding seal
    owner = ap (λ x. x.pathway_id) st.sealed

    -- An event that the runtime builds on what it read keeps every chain verified.
    stored-Verified : AllVerified w.events → AllVerified (w.events ++ e ∷ [])
    stored-Verified h j = elim (Bool-cases (of_pathway j e)) [
      | inl mine ↦
          let id_j : id ≡ j = sym owner ∙ (eq_iff e.pathway_id j).0 mine in
          rw (select-append j w.events e, mine)
            (subst (λ k. (verify_chain c.env (select (of_pathway k) w.events ++ e ∷ [])).0 ≡ true)
              id_j (own_chain h))
      | inr other ↦ rw (select-append j w.events e, other) (h j)
    ]

  Appended-Verified :
      (id kind actor : String) (payload : Fields) (w : World) (fs : List EvidenceEvent)
      (e : EvidenceEvent)
      → Stored c id kind actor payload w e
      → fs ≡ w.events ++ e ∷ []
      → AllVerified w.events
      → AllVerified fs
  Appended-Verified id kind actor payload w fs e st added h =
      subst AllVerified (sym added) (stored-Verified id kind actor payload w e st h)

  create-Verified :
      (d : PathwayDefinition) (s : PathwayState) (key : String) (w : World)
      → AllVerified w.events
      → AllVerified (create_or_replay_pathway c.env d s key w).1.events
  create-Verified d s key w h = elim (create_effect c.env d s key w) [
    | inl same ↦ subst AllVerified (sym same.1) h
    | inr new ↦ subst AllVerified (sym new.2) h
  ]

  record_event-Verified :
      (id kind actor : String) (payload : Fields) (w : World)
      → AllVerified w.events
      → AllVerified (record_event c id kind actor payload w).1.events
  record_event-Verified id kind actor payload w h =
      elim (record_event_effect c id kind actor payload w) [
        | inl same ↦ subst AllVerified (sym same.1) h
        | inr (e, st, app) ↦ Appended-Verified id kind actor payload w _ e st app.1 h
      ]

  move_with_event-Verified :
      (id kind actor : String) (s t : PathwayState) (more : Fields) (w : World)
      → AllVerified w.events
      → AllVerified (move_with_event c id kind actor s t more w).1.events
  move_with_event-Verified id kind actor s t more w h =
      elim (move_with_event_effect c id kind actor s t more w) [
        | inl same ↦ subst AllVerified (sym same.1) h
        | inr (e, st, mv) ↦
            Appended-Verified id kind actor (transition_payload s t more) w _ e st mv.2 h
      ]

  Writes-Verified : Writes c VerifiedOrder
  Writes-Verified = record {
    create = λ d s key. record { at = create-Verified d s key };
    recorded =
        λ id kind actor payload h. record { at = record_event-Verified id kind actor payload };
    moved = λ id kind actor s t more allowed h. record {
      at = move_with_event-Verified id kind actor s t more;
    };
    begun = λ id q. record {
      at = λ w. Untouched-Verified w (begin c.env id q w).1 (begin-Untouched c.env id q w);
    };
    finished = λ a r. record {
      at = λ w. Untouched-Verified w (finish c.env a r w).1 (finish-Untouched c.env a r w);
    };
    marked = λ a reason. record {
      at = λ w.
          Untouched-Verified w (mark_result_persistence_unknown c.env a reason w).1
            (mark-Untouched c.env a reason w);
    };
    discarded = λ a. record {
      at = λ w. Untouched-Verified w (discard_started c.env a w).1 (discard-Untouched c.env a w);
    };
  }

  -- Let the executors and strategies of the calls keep `AllVerified`. If `verify_chain` accepts
  -- the events of every pathway, then it accepts those of every pathway after any sequence of
  -- calls, one after another, whether they return or raise.
  pub run_calls-Verified :
      (ks : List Call) (w : World)
      → AllBehave VerifiedOrder ks
      → ((id : String) → (verify_chain c.env (events_of id w)).0 ≡ true)
      → (id : String) → (verify_chain c.env (events_of id (run_calls c ks w))).0 ≡ true
  unfolding events_of
  run_calls-Verified ks w behave h = run_calls-rel c VerifiedOrder Writes-Verified ks w behave h
