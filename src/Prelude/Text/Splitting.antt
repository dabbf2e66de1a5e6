-- ===== src/Prelude/Text/Splitting.antt =====
-- Laws of splitting, joining and trimming.
use Prim.Native.Nat.{ℕ}
use mathlib.Core.Path.{◌≡◌, refl, ap}
use mathlib.Core.Logic.{◌≢◌, inl, inr}
use mathlib.Core.Bool.{true, false}
use mathlib.Core.List.{List, [], ◌∷◌, ◌++◌}
use native.Mathlib.Omega.{arith}
use quicframe.Prelude.Tests.{◌==◌, Bool-cases, ==_self}
use quicframe.Prelude.Lists.{All, drop, length}
use quicframe.Prelude.Text.{
  Text, split, join, extend, trim_left, trim_right, trim, keep_unless, has_prefix,
}

abbrev pub Lacks : ℕ → Text → Type 0
Lacks c = All (λ a. a ≢ c)

extend-ne-nil : (a : ℕ) (ps : List Text) → extend a ps ≢ []
unfolding extend
extend-ne-nil a [] = λ h. cc
extend-ne-nil a (p ∷ ps) = λ h. cc

split-ne-nil : (sep : ℕ) (s : Text) → split sep s ≢ []
unfolding split
split-ne-nil sep [] = λ h. cc
split-ne-nil sep (a ∷ s) = elim (Bool-cases (a == sep)) [
  | inl e ↦ rw e (λ h. cc)
  | inr e ↦ rw e (extend-ne-nil a (split sep s))
]

join-extend : (sep a : ℕ) (ps : List Text) → ps ≢ [] → join sep (extend a ps) ≡ a ∷ join sep ps
unfolding join extend
join-extend sep a [] h = absurd (h refl)
join-extend sep a (p ∷ []) h = refl
join-extend sep a (p ∷ q ∷ ps) h = refl

join-cons : (sep : ℕ) (ps : List Text) → ps ≢ [] → join sep ([] ∷ ps) ≡ sep ∷ join sep ps
unfolding join
join-cons sep [] h = absurd (h refl)
join-cons sep (q ∷ ps) h = refl

pub join-split : (sep : ℕ) (s : Text) → join sep (split sep s) ≡ s
unfolding split
join-split sep [] = unfold join in refl
join-split sep (a ∷ s) = elim (Bool-cases (a == sep)) [
  | inl e ↦
      rw (e, join-cons sep (split sep s) (split-ne-nil sep s), join-split sep s)
        (ap (λ b. b ∷ s) (ground arith))
  | inr e ↦ rw (e, join-extend sep a (split sep s) (split-ne-nil sep s), join-split sep s)
]

extend-Lacks :
    (sep a : ℕ) (ps : List Text) → a ≢ sep → All (Lacks sep) ps → All (Lacks sep) (extend a ps)
unfolding extend
extend-Lacks sep a [] h all = ((h, tt), tt)
extend-Lacks sep a (p ∷ ps) h (hp, all) = ((h, hp), all)

pub split-Lacks : (sep : ℕ) (s : Text) → All (Lacks sep) (split sep s)
unfolding split
split-Lacks sep [] = (tt, tt)
split-Lacks sep (a ∷ s) = elim (Bool-cases (a == sep)) [
  | inl e ↦ rw e (tt, split-Lacks sep s)
  | inr e ↦ rw e (extend-Lacks sep a (split sep s) (ground arith) (split-Lacks sep s))
]

trim_right_last : (c : ℕ) (s : Text) → trim_right c (s ++ c ∷ []) ≡ trim_right c s
unfolding trim_right
trim_right_last c [] = rw (==_self c)
trim_right_last c (a ∷ s) = ap (keep_unless c a) (trim_right_last c s)

-- A separator more or less at either end makes no difference.
pub trim_last : (c : ℕ) (s : Text) → trim c (s ++ c ∷ []) ≡ trim c s
unfolding trim trim_left
trim_last c [] = rw (==_self c)
trim_last c (a ∷ s) = elim (Bool-cases (a == c)) [
  | inl e ↦ rw e (trim_last c s)
  | inr e ↦ rw e (trim_right_last c (a ∷ s))
]

pub trim_first : (c : ℕ) (s : Text) → trim c (c ∷ s) ≡ trim c s
unfolding trim trim_left
trim_first c s = rw (==_self c)

split-append : (sep : ℕ) (p s : Text) → Lacks sep p → split sep (p ++ sep ∷ s) ≡ p ∷ split sep s
unfolding split
split-append sep [] s h = rw (==_self sep)
split-append sep (a ∷ p) s (ne, h) =
    let other : (a == sep) ≡ false = ground arith in
    rw (other, split-append sep p s h) (unfold extend in refl)

split_of_Lacks : (sep : ℕ) (p : Text) → Lacks sep p → split sep p ≡ p ∷ []
unfolding split
split_of_Lacks sep [] h = refl
split_of_Lacks sep (a ∷ p) (ne, h) =
    let other : (a == sep) ≡ false = ground arith in
    rw (other, split_of_Lacks sep p h) (unfold extend in refl)

pub split-join :
    (sep : ℕ) (p : Text) (ps : List Text)
    → All (Lacks sep) (p ∷ ps)
    → split sep (join sep (p ∷ ps)) ≡ p ∷ ps
unfolding join
split-join sep p [] (h, _) = split_of_Lacks sep p h
split-join sep p (q ∷ ps) (h, all) =
    rw (split-append sep p (join sep (q ∷ ps)) h) (ap (λ r. p ∷ r) (split-join sep q ps all))

pub has_prefix-append : (p s : Text) → has_prefix (p ++ s) p ≡ true
unfolding has_prefix
has_prefix-append [] s = refl
has_prefix-append (a ∷ p) s = rw (==_self a, has_prefix-append p s)

pub append_of_has_prefix : (s p : Text) → has_prefix s p ≡ true → s ≡ p ++ drop (length p) s
unfolding has_prefix
append_of_has_prefix s [] h = refl
append_of_has_prefix [] (b ∷ p) h = cc
append_of_has_prefix (a ∷ s) (b ∷ p) h = ground (arith, append_of_has_prefix s p)
