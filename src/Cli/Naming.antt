-- ===== src/Cli/Naming.antt =====
-- The module name of a starter app.
use quicframe.Prelude.{
  ℕ, ◌≡◌, refl, true, false, [], ◌∷◌, ◌++◌, ◌⊎◌, inl, inr, ◌||◌, ◌==◌, All, Bool-cases,
}
use quicframe.Prelude.Text.{Text, codes, is_empty, text_eq}
use quicframe.Prelude.Text.Trimming.{starts_in, ends_in, starts_in-trim, ends_in-trim, trim-All}
use quicframe.Cli.{
  Building, is_word, sanitize_step, sanitize_loop, sanitize_lowered, sanitize_module_name,
}

-- A letter from a to z, a digit or a dash.
abbrev pub IsNameChar : ℕ → Type 0
IsNameChar r = (is_word r ≡ true) ⊎ (r ≡ b'-')

append-All : (b : Text) (r : ℕ) → All IsNameChar b → IsNameChar r → All IsNameChar (b ++ r ∷ [])
append-All [] r h p = (p, tt)
append-All (a ∷ b) r (q, h) p = (q, append-All b r h p)

sanitize_step-All :
    (x : Building) (r : ℕ) → All IsNameChar x.0 → All IsNameChar (sanitize_step x r).0
unfolding sanitize_step
sanitize_step-All (b, prev_dash) r h = elim (Bool-cases (is_word r)) [
  | inl e ↦ rw e (append-All b r h (inl e))
  | inr e ↦ elim (Bool-cases (r == b'-' || r == b'_')) [
    | inr f ↦ rw (e, f) h
    | inl f ↦ elim (Bool-cases (prev_dash || is_empty b)) [
      | inl g ↦ rw (e, f, g) h
      | inr g ↦ rw (e, f, g) (append-All b b'-' h (inr refl))
    ]
  ]
]

sanitize_loop-All :
    (x : Building) (rs : Text) → All IsNameChar x.0 → All IsNameChar (sanitize_loop x rs).0
unfolding sanitize_loop
sanitize_loop-All x [] h = h
sanitize_loop-All x (r ∷ rs) h = sanitize_loop-All (sanitize_step x r) rs (sanitize_step-All x r h)

-- A module name consists of letters from a to z, digits and dashes, and neither starts nor ends in
-- a dash, whatever the lowering of a name gives.
pub sanitize_module_name-IsNameChar :
    (lower : Text → Text) (name : Text)
    → All IsNameChar (sanitize_module_name lower name)
      × (starts_in b'-' (sanitize_module_name lower name) ≡ false)
      × (ends_in b'-' (sanitize_module_name lower name) ≡ false)
unfolding sanitize_module_name sanitize_lowered starts_in ends_in
sanitize_module_name-IsNameChar lower name =
    let built = (sanitize_loop ([], false) (lower name)).0 in
    elim (Bool-cases (text_eq (lower name) (codes ".") || text_eq (lower name) (codes "/"))) [
      | inl e ↦ rw e (tt, refl, refl)
      | inr e ↦ rw e (
        trim-All IsNameChar b'-' built (sanitize_loop-All ([], false) (lower name) tt),
        starts_in-trim b'-' built,
        ends_in-trim b'-' built,
      )
    ]
