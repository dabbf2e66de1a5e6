-- ===== src/Prelude/Text.antt =====
-- Go's strings and byte slices as lists of bytes, and the functions of package strings that the
-- source calls with an ASCII separator or prefix.
pub mod Splitting
pub mod Trimming
pub mod Decimal
use Prim.Native.Nat.{ℕ, zero, suc, ◌+◌, ◌-◌, ◌/◌, ◌%◌}
use Prim.Native.Char.{code}
use Prim.Native.String.{String}
use mathlib.Core.Path.{◌≡◌, refl}
use mathlib.Core.Logic.{◌↔◌, ◌≢◌, ◌⊎◌, inl, inr}
use mathlib.Core.Bool.{Bool, true, false, ◌&&◌}
use mathlib.Core.List.{List, [], ◌∷◌, ◌++◌, map}
use native.Mathlib.Omega.{arith}
use quicframe.Prelude.Tests.{◌==◌, leb, ltb, if◌then◌else◌, Bool-cases}

abbrev pub Text : Type 0
Text = List ℕ

abbrev pub Bytes : Type 0
Bytes = List ℕ

-- The bytes of an ASCII literal.
unfoldable pub codes : String → Text
codes String.[] = []
codes (String.◌∷◌ c s) = code c ∷ codes s

-- `a == b` on strings.
unfoldable pub text_eq : Text → Text → Bool
text_eq [] [] = true
text_eq (a ∷ s) (b ∷ t) = (a == b) && text_eq s t
text_eq _ _ = false

pub text_eq_iff : (a b : Text) → (text_eq a b ≡ true) ↔ (a ≡ b)
unfolding text_eq
text_eq_iff [] [] = (λ _. refl, λ _. refl)
text_eq_iff [] (b ∷ bs) = (λ h. cc, λ h. cc)
text_eq_iff (a ∷ s) [] = (λ h. cc, λ h. cc)
text_eq_iff (a ∷ s) (b ∷ t) =
    (λ h. ground (arith, text_eq_iff s t), λ h. ground (arith, text_eq_iff s t))

pub text_eq_self : (a : Text) → text_eq a a ≡ true
text_eq_self a = (text_eq_iff a a).1 refl

pub ne_of_text_eq : {a b : Text} → text_eq a b ≡ false → a ≢ b
ne_of_text_eq {a} {b} h e = let same = (text_eq_iff a b).1 e in cc

pub text_eq-ne : {a b : Text} → a ≢ b → text_eq a b ≡ false
text_eq-ne {a} {b} h = elim (Bool-cases (text_eq a b)) [
  | inl e ↦ absurd (h ((text_eq_iff a b).0 e))
  | inr e ↦ e
]

abbrev pub is_empty : Text → Bool
is_empty [] = true
is_empty (_ ∷ _) = false

pub is_empty-ne : {s : Text} → s ≢ [] → is_empty s ≡ false
is_empty-ne {s = []} h = absurd (h refl)
is_empty-ne {s = a ∷ s} h = refl

pub Text-cases : (s : Text) → (s ≡ []) ⊎ (s ≢ [])
Text-cases [] = inl refl
Text-cases (a ∷ s) = inr (λ h. cc)

-- `strings.HasPrefix(s, p)`.
unfoldable pub has_prefix : Text → Text → Bool
has_prefix s [] = true
has_prefix [] (_ ∷ _) = false
has_prefix (a ∷ s) (b ∷ p) = (a == b) && has_prefix s p

-- `strings.ToUpper`: bytes below 128 by themselves; a text with any other byte goes through the
-- Unicode tables, which are the parameter.
upper_byte : ℕ → ℕ
upper_byte a = if leb b'a' a && leb a b'z' then a - 32 else a

all_ascii : Text → Bool
all_ascii [] = true
all_ascii (a ∷ s) = ltb a 128 && all_ascii s

unfoldable pub to_upper : (Text → Text) → Text → Text
unfolding upper_byte all_ascii
to_upper unicode s = if all_ascii s then map upper_byte s else unicode s

-- `strings.Trim(s, c)` for a cutset of one byte: first on the left, then on the right.
unfoldable pub trim_left : ℕ → Text → Text
trim_left c [] = []
trim_left c (a ∷ s) = if a == c then trim_left c s else a ∷ s

keep_unless : ℕ → ℕ → Text → Text
keep_unless c a [] = if a == c then [] else a ∷ []
keep_unless c a (b ∷ s) = a ∷ b ∷ s

unfoldable pub trim_right : ℕ → Text → Text
unfolding keep_unless
trim_right c [] = []
trim_right c (a ∷ s) = keep_unless c a (trim_right c s)

unfoldable pub trim : ℕ → Text → Text
trim c s = trim_right c (trim_left c s)

-- `strings.Split(s, sep)` for a separator of one byte: always at least one part.
extend : ℕ → List Text → List Text
extend a [] = (a ∷ []) ∷ []
extend a (p ∷ ps) = (a ∷ p) ∷ ps

unfoldable pub split : ℕ → Text → List Text
unfolding extend
split sep [] = [] ∷ []
split sep (a ∷ s) = let parts = split sep s in if a == sep then [] ∷ parts else extend a parts

-- `strings.Join(parts, sep)`.
unfoldable pub join : ℕ → List Text → Text
join sep [] = []
join sep (p ∷ []) = p
join sep (p ∷ q ∷ ps) = p ++ sep ∷ join sep (q ∷ ps)

-- The decimal digits of `%d`, on fuel: a number has at most as many digits as its value plus one.
digits : ℕ → ℕ → Text → Text
digits zero n out = out
digits (suc fuel) n out =
    let more = digits fuel (n / 10) ((b'0' + n % 10) ∷ out) in
    if ltb n 10 then (b'0' + n) ∷ out else more

unfoldable pub decimal : ℕ → Text
unfolding digits
decimal n = digits (suc n) n []
