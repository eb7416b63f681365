-- ===== src/Base/Text.antt =====
-- Go's `strings` functions that the provider uses, on the code points of a text. Letters and spaces
-- are those of ASCII: the texts are settings and annotations, and other letters fold to themselves.
use Prim.Native.Char.{Char, code}
use vk_cocoon.Base.{
  ℕ, ◌+◌, ◌≡◌, refl, Bool, true, false, ◌&&◌, ◌||◌, String, List, [], ◌∷◌, arith, leb, nat_eq,
  if◌then◌else◌,
}

abbrev pub codes : String → List ℕ
codes String.[] = []
codes (String.◌∷◌ c s) = code c ∷ codes s

unfoldable pub is_space : ℕ → Bool
is_space c = nat_eq c 32 || leb 9 c && leb c 13

unfoldable pub lower : ℕ → ℕ
lower c = if leb 65 c && leb c 90 then c + 32 else c

unfoldable pub lower_all : List ℕ → List ℕ
unfolding lower
lower_all [] = []
lower_all (c ∷ s) = lower c ∷ lower_all s

unfoldable pub trim_left : String → String
unfolding is_space
trim_left String.[] = String.[]
trim_left (String.◌∷◌ c s) =
    let rest = trim_left s in if is_space (code c) then rest else String.◌∷◌ c s

abbrev cons_unless_blank : Char → String → String
cons_unless_blank c String.[] = if is_space (code c) then String.[] else String.◌∷◌ c String.[]
cons_unless_blank c (String.◌∷◌ d s) = String.◌∷◌ c (String.◌∷◌ d s)

unfoldable pub trim_right : String → String
unfolding is_space
trim_right String.[] = String.[]
trim_right (String.◌∷◌ c s) = cons_unless_blank c (trim_right s)

-- `strings.TrimSpace`.
unfoldable pub trim_space : String → String
unfolding trim_left trim_right
trim_space s = trim_right (trim_left s)

unfoldable pub same_codes : List ℕ → List ℕ → Bool
same_codes [] [] = true
same_codes (a ∷ s) (b ∷ t) = nat_eq a b && same_codes s t
same_codes _ _ = false

-- `strings.EqualFold`.
unfoldable pub equal_fold : List ℕ → List ℕ → Bool
unfolding lower_all same_codes
equal_fold s t = same_codes (lower_all s) (lower_all t)

pub same_codes_self : (s : List ℕ) → same_codes s s ≡ true
unfolding same_codes
same_codes_self [] = refl
same_codes_self (a ∷ s) = ground (arith, same_codes_self s)

pub eq_of_same_codes : (s t : List ℕ) → same_codes s t ≡ true → s ≡ t
unfolding same_codes
eq_of_same_codes [] [] h = refl
eq_of_same_codes [] (b ∷ t) h = cc
eq_of_same_codes (a ∷ s) [] h = cc
eq_of_same_codes (a ∷ s) (b ∷ t) h = ground (arith, eq_of_same_codes s t)
