-- ===== src/Prelude/Effects.antt =====
-- Computations on a state of any type that return a Go (value, error) pair, and their inversion.
use mathlib.Core.Path.{◌≡◌, refl, ap}
use quicframe.Prelude.Text.{Text}
use quicframe.Prelude.Errors.{wrap, Result, ok, err}

abbrev pub Eff : Type 0 → Type 0 → Type 0
Eff W A = W → W × Result A

abbrev pub bind : {W A B : Type 0} → W × Result A → (A → Eff W B) → W × Result B
bind (w, ok a) f = f a w
bind (w, err e) f = (w, err e)

infixl 5 ◌>>=◌ ◌>>◌
abbrev pub ◌>>=◌ : {W A B : Type 0} → Eff W A → (A → Eff W B) → Eff W B
◌>>=◌ m f w = bind (m w) f

abbrev pub ◌>>◌ : {W B : Type 0} → Eff W (Unit {0}) → Eff W B → Eff W B
m >> k = m >>= λ _. k

abbrev pub pure : {W A : Type 0} → A → Eff W A
pure a w = (w, ok a)

-- A result computed without the state, and one that only reads it.
abbrev pub lift : {W A : Type 0} → Result A → Eff W A
lift r w = (w, r)

abbrev pub reading : {W A : Type 0} → (W → Result A) → Eff W A
reading f w = (w, f w)

-- `if err != nil { return fmt.Errorf(prefix + "%w", err) }`
abbrev pub wrap_err : {A : Type 0} → Text → Result A → Result A
wrap_err prefix (ok a) = ok a
wrap_err prefix (err e) = err (wrap prefix e)

abbrev pub wrap_pair : {W A : Type 0} → Text → W × Result A → W × Result A
wrap_pair prefix (w, r) = (w, wrap_err prefix r)

abbrev pub wrapping : {W A : Type 0} → Text → Eff W A → Eff W A
wrapping prefix m w = wrap_pair prefix (m w)

-- `if err != nil { return err }` without a state.
abbrev pub and_then : {A B : Type 0} → Result A → (A → Result B) → Result B
and_then (ok a) f = f a
and_then (err e) f = err e

pub and_then_inv :
    {A B : Type 0} (r : Result A) (f : A → Result B) {b : B}
    → and_then r f ≡ ok b
    → (a : A) × (r ≡ ok a) × (f a ≡ ok b)
and_then_inv (ok a) f h = (a, refl, h)
and_then_inv (err e) f h = cc

-- What a computation that succeeded did first, and then.
pub bind_inv :
    {W A B : Type 0} (x : W × Result A) (f : A → Eff W B) {w' : W} {b : B}
    → bind x f ≡ (w', ok b)
    → (w : W) × (a : A) × (x ≡ (w, ok a)) × (f a w ≡ (w', ok b))
bind_inv (w, ok a) f h = (w, a, refl, h)
bind_inv (w, err e) f h = let bad : err e ≡ ok _ = ap (λ y. y.1) h in cc

pub wrap_err_inv :
    {A : Type 0} (prefix : Text) (r : Result A) {a : A} → wrap_err prefix r ≡ ok a → r ≡ ok a
wrap_err_inv prefix (ok a) h = h
wrap_err_inv prefix (err e) h = cc

pub wrap_pair_inv :
    {W A : Type 0} (prefix : Text) (x : W × Result A) {w : W} {a : A}
    → wrap_pair prefix x ≡ (w, ok a)
    → x ≡ (w, ok a)
wrap_pair_inv prefix (w, ok a) h = h
wrap_pair_inv prefix (w, err e) h = let bad : err _ ≡ ok _ = ap (λ y. y.1) h in cc

-- The same for a step whose error is wrapped.
pub step_inv :
    {W A B : Type 0} (prefix : Text) (m : Eff W A) (f : A → Eff W B) (w : W) {w' : W} {b : B}
    → bind (wrapping prefix m w) f ≡ (w', ok b)
    → (v : W) × (a : A) × (m w ≡ (v, ok a)) × (f a v ≡ (w', ok b))
step_inv prefix m f w h =
    let (v, a, e, rest) = bind_inv (wrap_pair prefix (m w)) f h in
    (v, a, wrap_pair_inv prefix (m w) e, rest)
