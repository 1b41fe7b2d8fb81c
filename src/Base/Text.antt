-- ===== src/Base/Text.antt =====
-- The string functions of the standard library that the code uses.
use Prim.Native.Nat.{ℕ}
use Prim.Native.Char.{code}
use Prim.Native.String.{String, ◌++◌}
use mathlib.Core.Path.{◌≡◌, refl, ap, ◌∙◌}
use mathlib.Core.Logic.{◌≢◌}
use mathlib.Core.Bool.{Bool, true, false, ◌||◌}
use mathlib.Core.Option.{Option, none, some}
use native.Mathlib.Omega.{arith}
use text.Mathlib.TextLemmas.{nil-append, cons-append}
use waterbus_rs.Base.Tests.{◌==◌, if◌then◌else◌}

abbrev slash : ℕ
slash = b'/'

unfoldable pub has_slash : String → Bool
has_slash String.[] = false
has_slash (String.◌∷◌ c s) = code c == slash || has_slash s

-- `split('/').next_back()`: what follows the last slash, or the whole text.
unfoldable pub last_segment : String → String
unfolding has_slash
last_segment String.[] = ""
last_segment (String.◌∷◌ c s) =
    let rest = last_segment s in
    if has_slash s then rest else if code c == slash then s else String.◌∷◌ c s

-- `strip_prefix`
unfoldable pub strip_prefix : String → String → Option String
strip_prefix s String.[] = some s
strip_prefix String.[] (String.◌∷◌ p ps) = none
strip_prefix (String.◌∷◌ c s) (String.◌∷◌ p ps) =
    let rest = strip_prefix s ps in if code c == code p then rest else none

pub strip_prefix-append : (s t : String) → strip_prefix (s ++ t) s ≡ some t
unfolding strip_prefix
strip_prefix-append String.[] t = rw nil-append
strip_prefix-append (String.◌∷◌ c s) t = rw cons-append (ground (arith, strip_prefix-append s t))

pub last_segment-no_slash : (s : String) → has_slash s ≡ false → last_segment s ≡ s
unfolding last_segment
last_segment-no_slash String.[] h = refl
last_segment-no_slash (String.◌∷◌ c s) h = ground arith

slash-append : (t : String) → "/" ++ t ≡ String.◌∷◌ "/" t
slash-append t = cons-append "/" "" t ∙ ap (String.◌∷◌ "/") (nil-append t)

has_slash-append : (s t : String) → has_slash (s ++ String.◌∷◌ "/" t) ≡ true
unfolding has_slash
has_slash-append String.[] t = rw nil-append
has_slash-append (String.◌∷◌ c s) t = rw cons-append (ground (arith, has_slash-append s t))

last_segment-cons :
    (s t : String) → last_segment (s ++ String.◌∷◌ "/" t) ≡ last_segment (String.◌∷◌ "/" t)
unfolding last_segment
last_segment-cons String.[] t = rw nil-append
last_segment-cons (String.◌∷◌ c s) t =
    rw cons-append (ground (arith, has_slash-append s t, last_segment-cons s t))

last_segment-head : (t : String) → has_slash t ≡ false → last_segment (String.◌∷◌ "/" t) ≡ t
unfolding last_segment
last_segment-head t h = rw h

-- What stands behind a slash is the last segment if it has no slash.
pub last_segment-slash : (s t : String) → has_slash t ≡ false → last_segment (s ++ ("/" ++ t)) ≡ t
last_segment-slash s t h = rw slash-append (last_segment-cons s t ∙ last_segment-head t h)

has_slash-last_segment : (s : String) → has_slash (last_segment s) ≡ false
unfolding last_segment
has_slash-last_segment String.[] = refl
has_slash-last_segment (String.◌∷◌ c s) = ground (arith, has_slash-last_segment s)

has_slash-slash : (t : String) → has_slash ("/" ++ t) ≡ true
has_slash-slash t = rw slash-append (unfold has_slash in refl)

-- No last segment begins with a slash.
pub last_segment_ne : (s t : String) → last_segment s ≢ "/" ++ t
last_segment_ne s t e = cc (has_slash-last_segment s, ap has_slash e, has_slash-slash t)
