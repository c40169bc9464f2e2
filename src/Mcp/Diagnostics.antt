-- ===== src/Mcp/Diagnostics.antt =====
-- mcp_stdio_framing.py: McpStdioDiagnostics, the bounded collector of stderr.
use responsibility_pathway_r.Prelude.{
  ℕ, zero, suc, ◌+◌, ◌-◌, ◌≤◌, ◌≡◌, refl, ap, ◌∙◌, Bool, false, not, ◌||◌, List, [], ◌∷◌, ◌++◌, leb,
  ltb, length, length-append, arith, Bool-cases, inl, inr, if◌then◌else◌, sym, subst, ◌⊎◌,
}
use mathlib.Core.List.{append-nil, append_assoc}
use responsibility_pathway_r.Errors.{Result, ok, err, value_error}
use responsibility_pathway_r.Framing.{Bytes, is_nil}

unfoldable pub take : ℕ → Bytes → Bytes
take zero bs = []
take (suc n) [] = []
take (suc n) (b ∷ bs) = b ∷ take n bs

-- The state of a collector; `max_bytes` does not change.
pub record Diagnostics : Type 0 where
  pub buffer : Bytes
  pub truncated : Bool

-- `__init__`
unfoldable pub new_diagnostics : ℕ → Result Diagnostics
new_diagnostics max_bytes =
    if leb max_bytes 0 then err value_error else ok (record { buffer = []; truncated = false })

-- `feed`
unfoldable pub feed : ℕ → Bytes → Diagnostics → Diagnostics
unfolding take is_nil
feed max_bytes value d =
    let remaining = max_bytes - length d.buffer in
    if leb remaining 0 then record d { truncated = d.truncated || not (is_nil value) } else record {
      buffer = d.buffer ++ take remaining value;
      truncated = d.truncated || ltb remaining (length value);
    }

-- Any sequence of chunks.
unfoldable pub feed_all : ℕ → List Bytes → Diagnostics → Diagnostics
unfolding feed
feed_all max_bytes [] d = d
feed_all max_bytes (c ∷ cs) d = feed_all max_bytes cs (feed max_bytes c d)

abbrev pub joined : List Bytes → Bytes
joined [] = []
joined (c ∷ cs) = c ++ joined cs

-- What a collector holds of the bytes that it was given.
abbrev pub collected : ℕ → Bytes → Diagnostics
collected max_bytes all = record {
  buffer = take max_bytes all;
  truncated = ltb max_bytes (length all);
}

take-all : (n : ℕ) (bs : Bytes) → length bs ≤ n → take n bs ≡ bs
unfolding take
take-all zero [] h = refl
take-all (suc n) [] h = refl
take-all zero (b ∷ bs) h = absurd (omega arith)
take-all (suc n) (b ∷ bs) h = ap (λ r. b ∷ r) (take-all n bs (omega arith))

length-take : (n : ℕ) (bs : Bytes) → n ≤ length bs → length (take n bs) ≡ n
unfolding take
length-take zero bs h = refl
length-take (suc n) [] h = absurd (omega arith)
length-take (suc n) (b ∷ bs) h = ap suc (length-take n bs (omega arith))

pub zero_add : (n : ℕ) → 0 + n ≡ n
zero_add n = omega arith

le_total : (m n : ℕ) → (m ≤ n) ⊎ ((k : ℕ) × (m ≡ n + suc k))
le_total m n = elim (Bool-cases (leb m n)) [
  | inl h ↦ inl (ground arith)
  | inr h ↦ inr (m - suc n, ground arith)
]

is_positive : (k : ℕ) → leb (suc k) 0 ≡ false
is_positive k = ground arith

not_below_zero : (n : ℕ) → ltb (suc n) 0 ≡ false
not_below_zero n = ground arith

pub add_suc : (n k : ℕ) → suc n + k ≡ suc (n + k)
add_suc n k = omega arith

take-short : (k : ℕ) (bs cs : Bytes) → take (length bs + k) (bs ++ cs) ≡ bs ++ take k cs
unfolding take
take-short k [] cs = rw (zero_add k) refl
take-short k (b ∷ bs) cs = rw (add_suc (length bs) k) (ap (λ r. b ∷ r) (take-short k bs cs))

take-long : (n : ℕ) (bs cs : Bytes) → n ≤ length bs → take n (bs ++ cs) ≡ take n bs
unfolding take
take-long zero bs cs h = refl
take-long (suc n) [] cs h = absurd (omega arith)
take-long (suc n) (b ∷ bs) cs h = ap (λ r. b ∷ r) (take-long n bs cs (omega arith))

sub_self : (n : ℕ) → n - n ≡ 0
sub_self n = omega arith

sub_add : (n k : ℕ) → n + suc k - n ≡ suc k
sub_add n k = omega arith

cut_off : (m n : ℕ) (c : Bytes) → m ≤ n → (ltb m n || not (is_nil c)) ≡ ltb m (n + length c)
unfolding is_nil
cut_off m n [] h = ground arith
cut_off m n (b ∷ bs) h = ground arith

fits : (n k l : ℕ) → (ltb (n + suc k) n || ltb (suc k) l) ≡ ltb (n + suc k) (n + l)
fits n k l = ground arith

-- The collector is full.
feed-full :
    (m : ℕ) (all c : Bytes) → m ≤ length all → feed m c (collected m all) ≡ collected m (all ++ c)
unfolding feed
feed-full m all c h =
    rw
      (
        length-take m all h,
        sub_self m,
        length-append all c,
        take-long m all c h,
        cut_off m (length all) c h,
      )
      refl

-- The collector has space.
feed-space :
    (k : ℕ) (all c : Bytes)
    → feed (length all + suc k) c (collected (length all + suc k) all)
      ≡ collected (length all + suc k) (all ++ c)
unfolding feed
feed-space k all c =
    rw
      (
        take-all (length all + suc k) all (omega arith),
        sub_add (length all) k,
        length-append all c,
        is_positive k,
        take-short (suc k) all c,
        fits (length all) k (length c),
      )
      refl

feed-collected : (m : ℕ) (all c : Bytes) → feed m c (collected m all) ≡ collected m (all ++ c)
feed-collected m all c = elim (le_total m (length all)) [
  | inl h ↦ feed-full m all c h
  | inr h ↦
      subst (λ n. feed n c (collected n all) ≡ collected n (all ++ c)) (sym h.1)
        (feed-space h.0 all c)
]

feed_all-from :
    (m : ℕ) (all : Bytes) (cs : List Bytes)
    → feed_all m cs (collected m all) ≡ collected m (all ++ joined cs)
unfolding feed_all
feed_all-from m all [] = ap (λ r. collected m r) (sym (append-nil all))
feed_all-from m all (c ∷ cs) =
    ap (feed_all m cs) (feed-collected m all c)
    ∙ feed_all-from m (all ++ c) cs
    ∙ ap (λ r. collected m r) (append_assoc all c (joined cs))

-- A new collector that was fed any chunks holds the first bytes of all that it was given, up to its
-- limit, and says that something was cut off exactly if there were more.
pub feed_all-collected :
    (max_bytes : ℕ) (cs : List Bytes)
    → feed_all max_bytes cs (record { buffer = []; truncated = false })
      ≡ collected max_bytes (joined cs)
unfolding take
feed_all-collected zero cs = feed_all-from 0 [] cs
feed_all-collected (suc n) cs =
    ap (λ t. feed_all (suc n) cs (record { buffer = []; truncated = t })) (sym (not_below_zero n))
    ∙ feed_all-from (suc n) [] cs
