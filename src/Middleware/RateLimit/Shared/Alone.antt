-- ===== src/Middleware/RateLimit/Shared/Alone.antt =====
-- A request that nothing comes in between: getLimiter and Allow together.
use quicframe.Prelude.{
  ℕ, zero, suc, ◌<◌, ◌≡◌, ◌≢◌, refl, true, false, List, [], ◌∷◌, ◌++◌, length, Option, none, some,
  some_injective, ap, sym, ◌∙◌, subst, inl, inr, Bool-cases, arith,
}
use quicframe.Prelude.Text.{Text, text_eq}
use quicframe.Prelude.Dict
use quicframe.Middleware.RateLimit.{Entry, Entries, Limiters}
use quicframe.Middleware.RateLimit.Shared.{allow_at}

-- The number is not that of a limiter of the map.
abbrev pub Avoids : ℕ → Entries ℕ → Type 0
Avoids n [] = Unit {0}
Avoids n ((k, e) ∷ es) = (e.limiter ≢ n) × Avoids n es

module _ {L : Type 0} where
  abbrev pub limiter_at : ℕ → List L → Option L
  limiter_at n [] = none
  limiter_at zero (l ∷ ls) = some l
  limiter_at (suc n) (l ∷ ls) = limiter_at n ls

  -- The second map has the limiters themselves where the first has their numbers, and no two keys
  -- of the first share one.
  abbrev pub Shows : List L → Entries ℕ → Entries L → Type 0
  Shows ls [] [] = Unit {0}
  Shows ls ((k, e) ∷ es) ((j, f) ∷ fs) =
      (k ≡ j)
      × (e.last_seen ≡ f.last_seen)
      × (limiter_at e.limiter ls ≡ some f.limiter)
      × Avoids e.limiter es
      × Shows ls es fs
  Shows ls _ _ = ⊥

  pub limiter_at-length : (ls : List L) (l : L) → limiter_at (length ls) (ls ++ l ∷ []) ≡ some l
  limiter_at-length [] l = refl
  limiter_at-length (x ∷ ls) l = limiter_at-length ls l

  pub limiter_at-append :
      (n : ℕ) (ls more : List L) {l : L}
      → limiter_at n ls ≡ some l
      → limiter_at n (ls ++ more) ≡ some l
  limiter_at-append n [] more h = cc
  limiter_at-append zero (x ∷ ls) more h = h
  limiter_at-append (suc n) (x ∷ ls) more h = limiter_at-append n ls more h

  pub limiter_at-bound : (n : ℕ) (ls : List L) {l : L} → limiter_at n ls ≡ some l → n < length ls
  limiter_at-bound n [] h = cc
  limiter_at-bound zero (x ∷ ls) h = omega arith
  limiter_at-bound (suc n) (x ∷ ls) h = omega (arith, limiter_at-bound n ls h)

module _ {L : Type 0} (lim : Limiters L) (burst idle : ℕ) where
  pub allow_at-same :
      (now n : ℕ) (ls : List L) (l : L)
      → limiter_at n ls ≡ some l
      → (limiter_at n (allow_at lim burst idle now n ls).0 ≡ some (lim.allow now l).0)
        × ((allow_at lim burst idle now n ls).1 ≡ some (lim.allow now l).1)
  unfolding allow_at
  allow_at-same now n [] l h = cc
  allow_at-same now zero (x ∷ ls) l h =
      let e = some_injective h in
      (ap (λ y. some (lim.allow now y).0) e, ap (λ y. some (lim.allow now y).1) e)
  allow_at-same now (suc n) (x ∷ ls) l h = allow_at-same now n ls l h

  pub allow_at-other :
      (now n m : ℕ) (ls : List L)
      → m ≢ n
      → limiter_at m (allow_at lim burst idle now n ls).0 ≡ limiter_at m ls
  unfolding allow_at
  allow_at-other now n m [] h = refl
  allow_at-other now zero zero (x ∷ ls) h = absurd (h refl)
  allow_at-other now zero (suc m) (x ∷ ls) h = refl
  allow_at-other now (suc n) zero (x ∷ ls) h = refl
  allow_at-other now (suc n) (suc m) (x ∷ ls) h = allow_at-other now n m ls (λ e. h (ap suc e))

Avoids-lookup :
    (n : ℕ) (key : Text) (es : Entries ℕ) (e : Entry ℕ)
    → Avoids n es
    → Dict.lookup key es ≡ some e
    → e.limiter ≢ n
unfolding Dict.lookup
Avoids-lookup n key [] e h found = cc
Avoids-lookup n key ((k, x) ∷ es) e (here, h) found = elim (Bool-cases (text_eq k key)) [
  | inl same ↦
      let is_x : x ≡ e = some_injective (rw same at found) in
      λ same_n. here (ap (λ (y : Entry ℕ). y.limiter) is_x ∙ same_n)
  | inr apart ↦ Avoids-lookup n key es e h (rw apart at found)
]

Avoids-insert :
    (n : ℕ) (key : Text) (es : Entries ℕ) (e : Entry ℕ)
    → e.limiter ≢ n
    → Avoids n es
    → Avoids n (Dict.insert key e es)
unfolding Dict.insert
Avoids-insert n key [] e new h = (new, tt)
Avoids-insert n key ((k, x) ∷ es) e new (here, h) = elim (Bool-cases (text_eq k key)) [
  | inl same ↦ rw same (new, h)
  | inr apart ↦ rw apart (here, Avoids-insert n key es e new h)
]

-- The limiters after a change at one number.
module _ {L : Type 0} (ls ls' : List L) (n : ℕ) (l : L) (at_n : limiter_at n ls' ≡ some l)
    (keeps : (m : ℕ) (x : L) → m ≢ n → limiter_at m ls ≡ some x → limiter_at m ls' ≡ some x) where
  Shows-keeps : (es : Entries ℕ) (fs : Entries L) → Avoids n es → Shows ls es fs → Shows ls' es fs
  Shows-keeps [] [] h shown = tt
  Shows-keeps [] (f ∷ fs) h shown = absurd shown
  Shows-keeps (e ∷ es) [] h shown = absurd shown
  Shows-keeps ((k, e) ∷ es) ((j, f) ∷ fs) (here, h) (names, times, there, apart, shown) =
      (names, times, keeps e.limiter f.limiter here there, apart, Shows-keeps es fs h shown)

  module _ (key : Text) (now : ℕ) where
    abbrev pub here_now : Entry ℕ
    here_now = record { limiter = n; last_seen = now }

    abbrev pub there_now : Entry L
    there_now = record { limiter = l; last_seen = now }

    pub insert-Shows_new :
        (es : Entries ℕ) (fs : Entries L)
        → Dict.lookup key es ≡ none
        → Avoids n es
        → Shows ls es fs
        → Shows ls' (Dict.insert key here_now es) (Dict.insert key there_now fs)
    unfolding Dict.insert Dict.lookup
    insert-Shows_new [] [] missing h shown = (refl, refl, at_n, tt, tt)
    insert-Shows_new [] (f ∷ fs) missing h shown = absurd shown
    insert-Shows_new (e ∷ es) [] missing h shown = absurd shown
    insert-Shows_new ((k, e) ∷ es) ((j, f) ∷ fs) missing (here, h)
          (names, times, there, apart, shown) =
        elim (Bool-cases (text_eq k key)) [
          | inl same ↦ let bad : some e ≡ none = rw same at missing in cc
          | inr other ↦
              let other' : text_eq j key ≡ false = ap (λ t. text_eq t key) (sym names) ∙ other in
              let rest : Shows ls' (Dict.insert key here_now es) (Dict.insert key there_now fs) =
                insert-Shows_new es fs (rw other at missing) h shown in
              rw (other, other')
                (
                  names,
                  times,
                  keeps e.limiter f.limiter here there,
                  Avoids-insert e.limiter key es here_now (λ e'. here (sym e')) apart,
                  rest,
                )
        ]

    pub insert-Shows_old :
        (es : Entries ℕ) (fs : Entries L) (x : Entry ℕ)
        → Dict.lookup key es ≡ some x
        → x.limiter ≡ n
        → Shows ls es fs
        → Shows ls' (Dict.insert key here_now es) (Dict.insert key there_now fs)
    unfolding Dict.insert Dict.lookup
    insert-Shows_old [] fs x found is_n shown = cc
    insert-Shows_old (e ∷ es) [] x found is_n shown = absurd shown
    insert-Shows_old ((k, e) ∷ es) ((j, f) ∷ fs) x found is_n (names, times, there, apart, shown) =
        elim (Bool-cases (text_eq k key)) [
          | inl same ↦
              let same' : text_eq j key ≡ true = ap (λ t. text_eq t key) (sym names) ∙ same in
              let is_x : e ≡ x = some_injective (rw same at found) in
              let number : e.limiter ≡ n = ap (λ (y : Entry ℕ). y.limiter) is_x ∙ is_n in
              let apart' : Avoids n es = subst (λ m. Avoids m es) number apart in
              rw (same, same') (refl, refl, at_n, apart', Shows-keeps es fs apart' shown)
          | inr other ↦
              let other' : text_eq j key ≡ false = ap (λ t. text_eq t key) (sym names) ∙ other in
              let tail_found : Dict.lookup key es ≡ some x = rw other at found in
              let not_e : x.limiter ≢ e.limiter =
                Avoids-lookup e.limiter key es x apart tail_found in
              let not_n : n ≢ e.limiter = λ e'. not_e (is_n ∙ e') in
              let rest : Shows ls' (Dict.insert key here_now es) (Dict.insert key there_now fs) =
                insert-Shows_old es fs x tail_found is_n shown in
              rw (other, other')
                (
                  names,
                  times,
                  keeps e.limiter f.limiter (λ e'. not_n (sym e')) there,
                  Avoids-insert e.limiter key es here_now not_n apart,
                  rest,
                )
        ]
