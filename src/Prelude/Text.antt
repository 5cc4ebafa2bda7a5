-- ===== src/Prelude/Text.antt =====
-- Texts: concatenation as Go's `+` and `Sprintf("%s…")` make it, and its laws.
use Prim.Native.String.append
use Prim.Native.String.{String}
use Prim.Native.String
use Prim.Native.Char.{code}
use Prim.Native.Nat.{ℕ, ◌+◌}
use mathlib.Core.Path.{◌≡◌, ap}
use mathlib.Core.Bool.{◌&&◌}
use mathlib.Core.List.{List, [], ◌∷◌}
use muto.Prelude.Tests.{if◌then◌else◌, leb, eqb}

infixr 65 ◌<>◌
abbrev pub ◌<>◌ : String → String → String
s <> t = String.◌++◌ s t

abbrev pub empty_text : String
empty_text = ""

pub append_assoc : (s t u : String) → (s <> t) <> u ≡ s <> (t <> u)
append_assoc String.[] t u = simp append.nil
append_assoc (String.◌∷◌ c s) t u = simp (append.cons) (ap (String.◌∷◌ c) (append_assoc s t u))

unfoldable pub tail_text : String → String
tail_text String.[] = String.[]
tail_text (String.◌∷◌ c s) = s

-- A common beginning cancels.
pub append_cancel_left : (s t u : String) → s <> t ≡ s <> u → t ≡ u
unfolding tail_text
append_cancel_left String.[] t u h = simp append.nil at h
append_cancel_left (String.◌∷◌ c s) t u h =
    append_cancel_left s t u (ap tail_text (simp append.cons at h))

-- `strings.ToLower` on the code points; of the letters that are not ASCII only U+0130 and U+212A are
-- lowered to ASCII ones, and no others are looked for.
abbrev lower : ℕ → ℕ
lower c =
    if leb 65 c && leb c 90
    then c + 32
    else if eqb c 304
    then 105
    else if eqb c 8490
    then 107
    else c

abbrev pub lowered : String → List ℕ
lowered String.[] = []
lowered (String.◌∷◌ c s) = lower (code c) ∷ lowered s
