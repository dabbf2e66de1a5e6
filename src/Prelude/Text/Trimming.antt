-- ===== src/Prelude/Text/Trimming.antt =====
-- What trimming leaves.
use Prim.Native.Nat.{ℕ}
use mathlib.Core.Path.{◌≡◌, refl}
use mathlib.Core.Logic.{inl, inr}
use mathlib.Core.Bool.{Bool, false}
use mathlib.Core.List.{[], ◌∷◌}
use quicframe.Prelude.Lists.{All}
use quicframe.Prelude.Tests.{◌==◌, Bool-cases}
use quicframe.Prelude.Text.{Text, trim_left, trim_right, trim, keep_unless}

-- The text starts, and ends, in the byte.
unfoldable pub starts_in : ℕ → Text → Bool
starts_in c [] = false
starts_in c (a ∷ s) = a == c

unfoldable pub ends_in : ℕ → Text → Bool
ends_in c [] = false
ends_in c (a ∷ []) = a == c
ends_in c (a ∷ b ∷ s) = ends_in c (b ∷ s)

ends_in-keep_unless :
    (c a : ℕ) (t : Text) → ends_in c t ≡ false → ends_in c (keep_unless c a t) ≡ false
unfolding keep_unless ends_in
ends_in-keep_unless c a [] h = elim (Bool-cases (a == c)) [ inl e ↦ rw e | inr e ↦ rw (e, e) ]
ends_in-keep_unless c a (b ∷ s) h = h

starts_in-keep_unless :
    (c a : ℕ) (t : Text) → (a == c) ≡ false → starts_in c (keep_unless c a t) ≡ false
unfolding keep_unless starts_in
starts_in-keep_unless c a [] e = rw (e, e)
starts_in-keep_unless c a (b ∷ s) e = e

ends_in-trim_right : (c : ℕ) (s : Text) → ends_in c (trim_right c s) ≡ false
unfolding trim_right ends_in
ends_in-trim_right c [] = refl
ends_in-trim_right c (a ∷ s) = ends_in-keep_unless c a (trim_right c s) (ends_in-trim_right c s)

pub ends_in-trim : (c : ℕ) (s : Text) → ends_in c (trim c s) ≡ false
unfolding trim
ends_in-trim c s = ends_in-trim_right c (trim_left c s)

pub starts_in-trim : (c : ℕ) (s : Text) → starts_in c (trim c s) ≡ false
unfolding trim trim_left trim_right starts_in
starts_in-trim c [] = refl
starts_in-trim c (a ∷ s) = elim (Bool-cases (a == c)) [
  | inl e ↦ rw e (starts_in-trim c s)
  | inr e ↦ rw e (starts_in-keep_unless c a (trim_right c s) e)
]

module _ (P : ℕ → Type 0) where
  trim_left-All : (c : ℕ) (s : Text) → All P s → All P (trim_left c s)
  unfolding trim_left
  trim_left-All c [] h = tt
  trim_left-All c (a ∷ s) (p, h) = elim (Bool-cases (a == c)) [
    | inl e ↦ rw e (trim_left-All c s h)
    | inr e ↦ rw e (p, h)
  ]

  keep_unless-All : (c a : ℕ) (t : Text) → P a → All P t → All P (keep_unless c a t)
  unfolding keep_unless
  keep_unless-All c a [] p h = elim (Bool-cases (a == c)) [ inl e ↦ rw e tt | inr e ↦ rw e (p, tt) ]
  keep_unless-All c a (b ∷ t) p h = (p, h)

  trim_right-All : (c : ℕ) (s : Text) → All P s → All P (trim_right c s)
  unfolding trim_right
  trim_right-All c [] h = tt
  trim_right-All c (a ∷ s) (p, h) = keep_unless-All c a (trim_right c s) p (trim_right-All c s h)

  pub trim-All : (c : ℕ) (s : Text) → All P s → All P (trim c s)
  unfolding trim
  trim-All c s h = trim_right-All c (trim_left c s) (trim_left-All c s h)
