-- ===== src/Evidence/Chain.antt =====
-- evidence.py: what the verification of a chain establishes.
use responsibility_pathway_r.Prelude.{
  ◌⊎◌, ◌==◌, ℕ, suc, String, true, false, Bool-cases, inl, inr, ◌≡◌, ◌≢◌, ◌↔◌, refl, Option, none,
  some, List, [], ◌∷◌, ◌++◌, ◌∙◌, map, eq_iff, eq_refl, any, arith, sym, ap₂,
}
use responsibility_pathway_r.Env.{Env}
use responsibility_pathway_r.Value.{Value}
use responsibility_pathway_r.World.{EvidenceEvent}
use responsibility_pathway_r.Evidence.{
  hash_of, canonical_payload, seal, verify_event, same_hash, verify_from, verify_chain,
}

same_hash_iff : (a b : Option String) → (same_hash a b ≡ true) ↔ (a ≡ b)
same_hash_iff none none = ground arith
same_hash_iff none (some b) = ground arith
same_hash_iff (some a) none = ground arith
same_hash_iff (some a) (some b) = ground (arith, eq_iff a b)

-- The hash of the last event, or the hash with which the list goes on.
abbrev pub head_after : Option String → List EvidenceEvent → Option String
head_after h [] = h
head_after h (e ∷ es) = head_after (some e.event_hash) es

head_after-append :
    (h : Option String) (es : List EvidenceEvent) (e : EvidenceEvent)
    → head_after h (es ++ e ∷ []) ≡ some e.event_hash
head_after-append h [] e = refl
head_after-append h (x ∷ es) e = head_after-append (some x.event_hash) es e

-- The events of `es`, the last one first, before those of `acc`.
abbrev pub onto : List EvidenceEvent → List EvidenceEvent → List EvidenceEvent
onto acc [] = acc
onto acc (e ∷ es) = onto (e ∷ acc) es

abbrev pub newest_first : List EvidenceEvent → List EvidenceEvent
newest_first = onto []

module _ (env : Env) where
  -- Every event carries the hash of the one before it and the hash of its own contents.
  abbrev pub Linked : Option String → List EvidenceEvent → Type 0
  Linked previous [] = Unit
  Linked previous (e ∷ es) =
      (e.previous_hash ≡ previous) × (hash_of env e ≡ e.event_hash) × Linked (some e.event_hash) es

  verify_from_iff :
      (n : ℕ) (previous : Option String) (es : List EvidenceEvent)
      → ((verify_from env n previous es).0 ≡ true) ↔ Linked previous es
  unfolding verify_from verify_event
  verify_from_iff n previous [] = ground arith
  verify_from_iff n previous (e ∷ es) = ground (
    arith,
    same_hash_iff e.previous_hash previous,
    eq_iff (hash_of env e) e.event_hash,
    verify_from_iff (suc n) (some e.event_hash) es,
  )

  -- `verify_chain` accepts exactly the chains whose first event has no predecessor, and in which every
  -- event names the hash of the one before it and carries the hash of its own contents.
  pub verify_chain_iff :
      (es : List EvidenceEvent) → ((verify_chain env es).0 ≡ true) ↔ Linked none es
  unfolding verify_chain
  verify_chain_iff = verify_from_iff 0 none

  Linked-append :
      (h : Option String) (es : List EvidenceEvent) (e : EvidenceEvent)
      → Linked h (es ++ e ∷ [])
        ↔ (Linked h es × (e.previous_hash ≡ head_after h es) × (hash_of env e ≡ e.event_hash))
  Linked-append h [] e = ground arith
  Linked-append h (x ∷ es) e = ground (arith, Linked-append (some x.event_hash) es e)

  -- A verified chain stays verified when an event is appended that is built on the hash of its
  -- last one.
  pub verify_chain-append :
      (es : List EvidenceEvent) (pathway_id event_type actor : String) (payload : Value)
      (now : String)
      → (verify_chain env es).0 ≡ true
      → (verify_chain env
          (es ++ seal env pathway_id event_type actor payload now (head_after none es) ∷ [])).0
        ≡ true
  unfolding seal hash_of
  verify_chain-append es pathway_id event_type actor payload now v =
      let e = seal env pathway_id event_type actor payload now (head_after none es) in
      (verify_chain_iff (es ++ e ∷ [])).1
        ((Linked-append none es e).1 ((verify_chain_iff es).0 v, refl, refl))

  -- Let two events name the last hash of a list of events as their predecessor, and let the first
  -- of them have another hash than that. Then the list with both appended is no verified chain.
  pub verify_chain-fork :
      (es : List EvidenceEvent) (e f : EvidenceEvent)
      → e.previous_hash ≡ head_after none es
      → f.previous_hash ≡ head_after none es
      → some e.event_hash ≢ head_after none es
      → (verify_chain env ((es ++ e ∷ []) ++ f ∷ [])).0 ≡ false
  verify_chain-fork es e f p q n =
      elim (Bool-cases (verify_chain env ((es ++ e ∷ []) ++ f ∷ [])).0) [
        | inl v ↦
            let linked =
              (Linked-append none (es ++ e ∷ []) f).0
                ((verify_chain_iff ((es ++ e ∷ []) ++ f ∷ [])).0 v) in
            absurd (n (sym (head_after-append none es e) ∙ sym (linked.1) ∙ q))
        | inr v ↦ v
      ]

  -- The text whose hash an event carries.
  abbrev pub canonical_text : EvidenceEvent → String
  canonical_text e =
      env.dumps (
        canonical_payload e.pathway_id e.event_type e.actor e.payload e.occurred_at e.previous_hash)

  -- A chain from its newest event.
  abbrev newest : List EvidenceEvent → Option String
  newest [] = none
  newest (e ∷ older) = some e.event_hash

  abbrev Chained : List EvidenceEvent → Type 0
  Chained [] = Unit
  Chained (e ∷ older) =
      (e.previous_hash ≡ newest older) × (hash_of env e ≡ e.event_hash) × Chained older

  Chained-onto :
      (acc es : List EvidenceEvent) → Chained acc → Linked (newest acc) es → Chained (onto acc es)
  Chained-onto acc [] c l = c
  Chained-onto acc (e ∷ es) c l = Chained-onto (e ∷ acc) es (l.0, l.1, c) l.2

  newest-onto : (acc es : List EvidenceEvent) → newest (onto acc es) ≡ head_after (newest acc) es
  newest-onto acc [] = refl
  newest-onto acc (e ∷ es) = newest-onto (e ∷ acc) es

  -- Two different texts with the same hash, one of each list.
  pub record Collision (xs ys : List String) : Type 0 where
    pub text : String
    pub other : String
    pub in_first : any (λ t. t == text) xs ≡ true
    pub in_second : any (λ t. t == other) ys ≡ true
    pub different : (text == other) ≡ false
    pub same_hash_of : env.sha256 text ≡ env.sha256 other

  any_first : (s : String) (xs : List String) → any (λ t. t == s) (s ∷ xs) ≡ true
  unfolding any
  any_first s xs = rw (eq_refl s) refl

  any_later :
      (s x : String) (xs : List String)
      → any (λ t. t == s) xs ≡ true
      → any (λ t. t == s) (x ∷ xs) ≡ true
  unfolding any
  any_later s x xs h = ground (arith, h)

  -- Two texts with the same hash are the same, or a collision of the lists that they are the first of.
  same-or-Collision :
      (s t : String) (xs ys : List String)
      → env.sha256 s ≡ env.sha256 t
      → (s ≡ t) ⊎ Collision (s ∷ xs) (t ∷ ys)
  same-or-Collision s t xs ys h = elim (Bool-cases (s == t)) [
    | inl same ↦ inl ((eq_iff s t).0 same)
    | inr other ↦ inr (record {
      text = s;
      other = t;
      in_first = any_first s xs;
      in_second = any_first t ys;
      different = other;
      same_hash_of = h;
    })
  ]

  Collision-later :
      (x y : String) (xs ys : List String) → Collision xs ys → Collision (x ∷ xs) (y ∷ ys)
  Collision-later x y xs ys c = record {
    text = c.text;
    other = c.other;
    in_first = any_later c.text x xs c.in_first;
    in_second = any_later c.other y ys c.in_second;
    different = c.different;
    same_hash_of = c.same_hash_of;
  }

  module _
      (previous_of_text : (e f : EvidenceEvent)
        → canonical_text e ≡ canonical_text f
        → e.previous_hash ≡ f.previous_hash) where
    texts_equal :
        (xs ys : List EvidenceEvent)
        → Chained xs
        → Chained ys
        → newest xs ≡ newest ys
        → (map canonical_text xs ≡ map canonical_text ys)
          ⊎ Collision (map canonical_text xs) (map canonical_text ys)
    unfolding hash_of
    texts_equal [] [] c d h = inl refl
    texts_equal [] (y ∷ ys) c d h = absurd (cc h)
    texts_equal (x ∷ xs) [] c d h = absurd (cc h)
    texts_equal (x ∷ xs) (y ∷ ys) c d h =
        elim (same-or-Collision (canonical_text x) (canonical_text y) (map canonical_text xs)
          (map canonical_text ys) (c.1 ∙ ground arith ∙ sym d.1)) [
            | inr collision ↦ inr collision
            | inl same ↦
                elim (texts_equal xs ys c.2 d.2 (sym c.0 ∙ previous_of_text x y same ∙ d.0)) [
                  | inr collision ↦ inr (Collision-later _ _ _ _ collision)
                  | inl rest ↦ inl (ap₂ ◌∷◌ same rest)
                ]
          ]

    -- Let the canonical text of an event show its `previous_hash`, as its JSON does. If two verified
    -- chains have the same last hash, then they hold the same canonical texts in the same order, or
    -- there are a text of the one and a text of the other that differ and have the same hash: a history
    -- is rewritten under its last hash only with a collision of the hash function among its texts.
    pub history_fixed :
        (es fs : List EvidenceEvent)
        → (verify_chain env es).0 ≡ true
        → (verify_chain env fs).0 ≡ true
        → head_after none es ≡ head_after none fs
        → (map canonical_text (newest_first es) ≡ map canonical_text (newest_first fs))
          ⊎ Collision (map canonical_text (newest_first es)) (map canonical_text (newest_first fs))
    history_fixed es fs v w h =
        texts_equal (newest_first es) (newest_first fs)
          (Chained-onto [] es tt ((verify_chain_iff es).0 v))
          (Chained-onto [] fs tt ((verify_chain_iff fs).0 w))
          (newest-onto [] es ∙ h ∙ sym (newest-onto [] fs))
