-- ===== src/Prelude/Strings.antt =====
-- Go's `+` on strings, by the characters of the left one.
use Prim.Native.String.{String}
use mathlib.Core.Logic.{◌≢◌}
use text.Mathlib.TextLemmas.{nil≢cons}
use mathlib.Core.Path.{sym, ◌≡◌, refl, ap}

infixr 65 ◌<>◌
abbrev pub ◌<>◌ : String → String → String
String.[] <> t = t
String.◌∷◌ c s <> t = String.◌∷◌ c (s <> t)

pub <>_nil : (s : String) → s <> "" ≡ s
<>_nil String.[] = refl
<>_nil (String.◌∷◌ c s) = ap (String.◌∷◌ c) (<>_nil s)

pub <>_assoc : (s t u : String) → (s <> t) <> u ≡ s <> (t <> u)
<>_assoc String.[] t u = refl
<>_assoc (String.◌∷◌ c s) t u = ap (String.◌∷◌ c) (<>_assoc s t u)

pub <>_cancel_left : (s : String) {t u : String} → s <> t ≡ s <> u → t ≡ u
<>_cancel_left String.[] h = h
<>_cancel_left (String.◌∷◌ c s) h = <>_cancel_left s (cc)

pub <>_ne_left : (s t : String) → ◌≢◌ {A = String} s "" → ◌≢◌ {A = String} (s <> t) ""
<>_ne_left String.[] t ne e = ne refl
<>_ne_left (String.◌∷◌ c s) t ne e = nil≢cons (sym e)

pub <>_ne_right : (s t : String) → ◌≢◌ {A = String} t "" → ◌≢◌ {A = String} (s <> t) ""
<>_ne_right String.[] t ne e = ne e
<>_ne_right (String.◌∷◌ c s) t ne e = nil≢cons (sym e)
