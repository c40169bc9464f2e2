-- ===== src/Schema/Again.antt =====
-- storage.py, attempts.py, message_executor.py and tenant.py: the statements of a migration, run on a
-- database that has the current version.
use responsibility_pathway_r.Prelude.{
  String, Bool, true, false, not, ◌&&◌, ◌≡◌, refl, ap, ap₂, ◌∙◌, Option, none, some, List, [], ◌∷◌,
  ◌++◌, ◌==◌, eq_refl, any, map, arith, Bool-cases, inl, inr, ◌⊎◌,
}
use responsibility_pathway_r.Errors.{Result, ok, ◌>>=◌}
use responsibility_pathway_r.Value.{ℤ, pos}
use responsibility_pathway_r.Schema.{
  Table, Schema, Migration, is_named, create, create_all, with_column, add_column, create_index,
  version_of, check_version, migrated, migrate, committed,
}

module _ {A : Type 0} where
  any-append_old : (p : A → Bool) (xs ys : List A) → any p xs ≡ true → any p (xs ++ ys) ≡ true
  unfolding any
  any-append_old p [] ys h = absurd (ground arith)
  any-append_old p (x ∷ xs) ys h = ground (arith, any-append_old p xs ys)

  any-append_new : (p : A → Bool) (xs : List A) (y : A) → p y ≡ true → any p (xs ++ y ∷ []) ≡ true
  unfolding any
  any-append_new p [] y h = ground arith
  any-append_new p (x ∷ xs) y h = ground (arith, any-append_new p xs y h)

  pub map-map_same :
      (f : A → A) (xs : List A) → ((x : A) → f (f x) ≡ f x) → map f (map f xs) ≡ map f xs
  map-map_same f [] h = refl
  map-map_same f (x ∷ xs) h = ap₂ (λ y ys. y ∷ ys) (h x) (map-map_same f xs h)

abbrev Present : String → List Table → Type 0
Present n ts = (any (is_named n) ts ≡ true)

abbrev pub AllPresent : List Table → List Table → Type 0
AllPresent [] ts = Unit
AllPresent (c ∷ cs) ts = Present c.table_name ts × AllPresent cs ts

create-Present : (c : Table) (ts : List Table) → Present c.table_name (create c ts)
unfolding create
create-Present c ts = elim (Bool-cases (any (is_named c.table_name) ts)) [
  | inl there ↦ rw there there
  | inr new ↦ rw new (any-append_new (is_named c.table_name) ts c (eq_refl c.table_name))
]

create-keeps : (n : String) (c : Table) (ts : List Table) → Present n ts → Present n (create c ts)
unfolding create
create-keeps n c ts h = elim (Bool-cases (any (is_named c.table_name) ts)) [
  | inl there ↦ rw there h
  | inr new ↦ rw new (any-append_old (is_named n) ts (c ∷ []) h)
]

create_all-keeps : (n : String) (cs ts : List Table) → Present n ts → Present n (create_all cs ts)
unfolding create_all
create_all-keeps n [] ts h = h
create_all-keeps n (c ∷ cs) ts h = create_all-keeps n cs (create c ts) (create-keeps n c ts h)

create_all-AllPresent : (cs ts : List Table) → AllPresent cs (create_all cs ts)
unfolding create_all
create_all-AllPresent [] ts = tt
create_all-AllPresent (c ∷ cs) ts = (
  create_all-keeps c.table_name cs (create c ts) (create-Present c ts),
  create_all-AllPresent cs (create c ts),
)

create_all-same : (cs ts : List Table) → AllPresent cs ts → create_all cs ts ≡ ts
unfolding create_all create
create_all-same [] ts h = refl
create_all-same (c ∷ cs) ts (there, h) = rw there (create_all-same cs ts h)

with_column-named : (n c m : String) (t : Table) → is_named m (with_column n c t) ≡ is_named m t
unfolding with_column
with_column-named n c m t = elim (Bool-cases (is_named n t && not (any (λ d. d == c) t.columns))) [
  | inl added ↦ rw added refl
  | inr same ↦ rw same refl
]

and_false : (b : Bool) → (b && false) ≡ false
and_false true = refl
and_false false = refl

with_column-same :
    (n c : String) (t : Table) → with_column n c (with_column n c t) ≡ with_column n c t
unfolding with_column
with_column-same n c t = elim (Bool-cases (is_named n t && not (any (λ d. d == c) t.columns))) [
  | inl added ↦
      rw (added, any-append_new (λ d. d == c) t.columns c (eq_refl c), and_false (is_named n t))
        refl
  | inr same ↦ rw (same, same) refl
]

-- Every table of that name has the column.
abbrev pub HasColumn : String → String → List Table → Type 0
HasColumn n c [] = Unit
HasColumn n c (t ∷ ts) =
    ((is_named n t ≡ false) ⊎ (any (λ d. d == c) t.columns ≡ true)) × HasColumn n c ts

with_column-has :
    (n c : String) (t : Table)
    → (is_named n (with_column n c t) ≡ false)
      ⊎ (any (λ d. d == c) (with_column n c t).columns ≡ true)
unfolding with_column
with_column-has n c t = elim (Bool-cases (is_named n t && not (any (λ d. d == c) t.columns))) [
  | inl added ↦ rw added (inr (any-append_new (λ d. d == c) t.columns c (eq_refl c)))
  | inr same ↦ rw same (ground arith)
]

pub add_column-HasColumn :
    (n c : String) (ts : List Table) → HasColumn n c (add_column (some (n, c)) ts)
unfolding add_column
add_column-HasColumn n c [] = tt
add_column-HasColumn n c (t ∷ ts) = (with_column-has n c t, add_column-HasColumn n c ts)

add_column-Present :
    (o : Option (String × String)) (n : String) (ts : List Table)
    → Present n ts
    → Present n (add_column o ts)
unfolding add_column any
add_column-Present none n ts h = h
add_column-Present (some (m, c)) n [] h = h
add_column-Present (some (m, c)) n (t ∷ ts) h = elim (Bool-cases (is_named n t)) [
  | inl named ↦ rw (with_column-named m c n t, named) refl
  | inr other ↦
      rw (with_column-named m c n t, other) (add_column-Present (some (m, c)) n ts (rw other at h))
]

add_column-AllPresent :
    (o : Option (String × String)) (cs ts : List Table)
    → AllPresent cs ts
    → AllPresent cs (add_column o ts)
add_column-AllPresent o [] ts h = tt
add_column-AllPresent o (c ∷ cs) ts (there, h) =
    (add_column-Present o c.table_name ts there, add_column-AllPresent o cs ts h)

add_column-same :
    (o : Option (String × String)) (ts : List Table)
    → add_column o (add_column o ts) ≡ add_column o ts
unfolding add_column
add_column-same none ts = refl
add_column-same (some (n, c)) ts = map-map_same (with_column n c) ts (with_column-same n c)

create_index-same :
    (o : Option String) (xs : List String) → create_index o (create_index o xs) ≡ create_index o xs
unfolding create_index
create_index-same none xs = refl
create_index-same (some x) xs = elim (Bool-cases (any (λ y. y == x) xs)) [
  | inl there ↦ rw (there, there) refl
  | inr new ↦ rw (new, any-append_new (λ y. y == x) xs x (eq_refl x)) refl
]

pub migrated-AllPresent : (m : Migration) (s : Schema) → AllPresent m.creates (migrated m s).tables
unfolding migrated
migrated-AllPresent m s =
    add_column-AllPresent m.added_column m.creates (create_all m.creates s.tables)
      (create_all-AllPresent m.creates s.tables)

pub migrated-again : (m : Migration) (s : Schema) → migrated m (migrated m s) ≡ migrated m s
unfolding migrated
migrated-again m s =
    let once = add_column m.added_column (create_all m.creates s.tables) in
    ap₂ (λ ts xs. record { tables = ts; indexes = xs; version = some m.version_text })
      (ap (add_column m.added_column) (create_all-same m.creates once (migrated-AllPresent m s))
        ∙ add_column-same m.added_column (create_all m.creates s.tables))
      (create_index-same m.created_index s.indexes)

module _ (parse_int : String → Result ℤ) (m : Migration)
    (read : parse_int m.version_text ≡ ok (pos m.current)) where
  current-accepted : (version_of parse_int (some m.version_text) >>= check_version m) ≡ ok tt
  unfolding version_of check_version
  current-accepted = rw read (ground arith)

  pub migrate_current :
      (s : Schema)
      → s.version ≡ some m.version_text
      → migrate parse_int false m s ≡ (ok tt, migrated m s)
  unfolding migrate committed
  migrate_current s h =
      ap (λ v. committed m (version_of parse_int v >>= check_version m) false s) h
      ∙ ap (λ c. committed m c false s) current-accepted

  pub migrated-version : (s : Schema) → (migrated m s).version ≡ some m.version_text
  unfolding migrated
  migrated-version s = refl
