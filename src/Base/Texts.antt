-- ===== src/Base/Texts.antt =====
-- Python's slices and splits of texts, by characters.
use Prim.Native.Nat.{ℕ, zero, suc}
use Prim.Native.String.{String, ◌++◌}
use Prim.Native.Char.{code}
use mathlib.Core.Bool.{Bool, true, false, ◌||◌}
use mathlib.Core.List.{List, [], ◌∷◌}
use text.Mathlib.Text.{◌==◌ as str_eq}
use mathlib.Core.Path.{◌≡◌}
use mathlib.Core.Logic.{◌↔◌}
use text.Mathlib.TextEquality.{eq_iff}
use codecov_api.Base.Tests.{either_iff, ◌==◌}
use codecov_api.Base.Lists.{IsIn}

-- s[n:]
abbrev pub skip : ℕ → String → String
skip zero s = s
skip (suc n) String.[] = String.[]
skip (suc n) (String.◌∷◌ c s) = skip n s

-- s[:n]
abbrev pub leading : ℕ → String → String
leading zero s = String.[]
leading (suc n) String.[] = String.[]
leading (suc n) (String.◌∷◌ c s) = String.◌∷◌ c (leading n s)

-- s + t
abbrev pub join : String → String → String
join s t = s ++ t

-- s in ss
abbrev pub mem_str : String → List String → Bool
mem_str s [] = false
mem_str s (t ∷ ts) = str_eq s t || mem_str s ts

-- Puts a character before the first text of a list.
abbrev pub widen : String → List String → List String
widen c [] = c ∷ []
widen c (s ∷ ss) = (c ++ s) ∷ ss

-- s.split(c), for a character with the code `c`.
abbrev pub split : ℕ → String → List String
split c String.[] = "" ∷ []
split c (String.◌∷◌ d s) =
    let rest = split c s in
    elim (code d == c) [ true ↦ "" ∷ rest | false ↦ widen (String.◌∷◌ d String.[]) rest ]

-- ss[-1], of a list that starts with `s`.
abbrev pub last_str : String → List String → String
last_str s [] = s
last_str s (t ∷ ts) = last_str t ts

pub mem_str_iff : (s : String) (ss : List String) → (mem_str s ss ≡ true) ↔ IsIn s ss
mem_str_iff s [] = ((λ h. cc), (λ h. absurd h))
mem_str_iff s (t ∷ ts) = either_iff (str_eq s t) (mem_str s ts) (eq_iff s t) (mem_str_iff s ts)
