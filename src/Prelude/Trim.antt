-- ===== src/Prelude/Trim.antt =====
-- Texts without space at their ends: what `strip` returns, and what is put together from such texts.
use Prim.Native.Char.{code}
use Prim.Native.String.{String, ◌++◌}
use mathlib.Core.Path.{◌≡◌, refl, sym, ap, ◌∙◌}
use mathlib.Core.Bool.{Bool, true, false, not, ◌&&◌}
use text.Mathlib.Text.{◌==◌}
use text.Mathlib.TextEquality.{eq_iff}
use text.Mathlib.TextLemmas.{cons-append, nil-append}
use native.Mathlib.Omega.{arith}
use responsibility_pathway_r.Prelude.Tests.{if◌then◌else◌}
use responsibility_pathway_r.Prelude.Text.{
  is_space, is_empty, is_blank, strip_left, strip_right, keep_right, strip, concat, is_empty-strip,
}

-- The first character is no space.
starts_clean : String → Bool
starts_clean String.[] = true
starts_clean (String.◌∷◌ c s) = not (is_space (code c))

-- The last character is no space.
ends_clean : String → Bool
ends_clean String.[] = true
ends_clean (String.◌∷◌ c s) = if is_empty s then not (is_space (code c)) else ends_clean s

strip_left-starts : (s : String) → starts_clean (strip_left s) ≡ true
unfolding starts_clean strip_left
strip_left-starts String.[] = refl
strip_left-starts (String.◌∷◌ c s) = ground (arith, strip_left-starts s)

strip_left-clean : (s : String) → starts_clean s ≡ true → strip_left s ≡ s
unfolding starts_clean strip_left
strip_left-clean String.[] h = refl
strip_left-clean (String.◌∷◌ c s) h = ground arith

strip_right-ends : (s : String) → ends_clean (strip_right s) ≡ true
unfolding ends_clean strip_right keep_right
strip_right-ends String.[] = refl
strip_right-ends (String.◌∷◌ c s) = ground (arith, strip_right-ends s)

strip_right-clean : (s : String) → ends_clean s ≡ true → strip_right s ≡ s
unfolding ends_clean strip_right keep_right
strip_right-clean String.[] h = refl
strip_right-clean (String.◌∷◌ c String.[]) h = ground arith
strip_right-clean (String.◌∷◌ c (String.◌∷◌ d s)) h =
    ground (arith, strip_right-clean (String.◌∷◌ d s) h)

strip_right-starts : (s : String) → starts_clean s ≡ true → starts_clean (strip_right s) ≡ true
unfolding starts_clean strip_right keep_right
strip_right-starts String.[] h = refl
strip_right-starts (String.◌∷◌ c s) h = ground arith

starts-append :
    (s t : String) → is_empty s ≡ false → starts_clean s ≡ true → starts_clean (s ++ t) ≡ true
unfolding starts_clean
starts-append String.[] t e h = absurd (ground arith)
starts-append (String.◌∷◌ c s) t e h = rw cons-append h

is_empty-append : (s t : String) → is_empty t ≡ false → is_empty (s ++ t) ≡ false
is_empty-append String.[] t e = rw nil-append e
is_empty-append (String.◌∷◌ c s) t e = rw cons-append

ends-append : (s t : String) → is_empty t ≡ false → ends_clean t ≡ true → ends_clean (s ++ t) ≡ true
unfolding ends_clean
ends-append String.[] t e h = rw nil-append h
ends-append (String.◌∷◌ c s) t e h =
    rw cons-append (rw (is_empty-append s t e) (ends-append s t e h))

-- A text that is not blank and has no space around it.
unfoldable pub is_trimmed : String → Bool
is_trimmed s = not (is_blank s) && s == strip s

record IsClean (s : String) : Type 0 where
  given : is_empty s ≡ false
  starts : starts_clean s ≡ true
  ends : ends_clean s ≡ true

clean-trimmed : (s : String) → IsClean s → is_trimmed s ≡ true
unfolding is_trimmed strip
clean-trimmed s c =
    let same : strip s ≡ s = rw (strip_left-clean s c.starts) (strip_right-clean s c.ends) in
    let full : is_blank s ≡ false = sym (is_empty-strip s) ∙ ap is_empty same ∙ c.given in
    ground (arith, eq_iff s (strip_right (strip_left s)))

strip-IsClean : (s : String) → is_blank s ≡ false → IsClean (strip s)
unfolding strip
strip-IsClean s h = record {
  given = is_empty-strip s ∙ h;
  starts = strip_right-starts (strip_left s) (strip_left-starts s);
  ends = strip_right-ends (strip_left s);
}

-- What `strip` leaves of a text that is not blank is trimmed.
pub strip-trimmed : (s : String) → is_blank s ≡ false → is_trimmed (strip s) ≡ true
strip-trimmed s h = clean-trimmed (strip s) (strip-IsClean s h)

-- So are two such texts with a third between them.
pub joined-trimmed :
    (s t between : String)
    → is_blank s ≡ false
    → is_blank t ≡ false
    → is_trimmed (concat (strip s) (concat between (strip t))) ≡ true
joined-trimmed s t between hs ht =
    let a = strip-IsClean s hs in
    let b = strip-IsClean t ht in
    clean-trimmed _ (record {
      given = is_empty-append (strip s) _ (is_empty-append between (strip t) b.given);
      starts = starts-append (strip s) _ a.given a.starts;
      ends =
          ends-append (strip s) _ (is_empty-append between (strip t) b.given)
            (ends-append between (strip t) b.given b.ends);
    })
