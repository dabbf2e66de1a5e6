-- ===== src/Examples/BasicServer/Numbering.antt =====
-- The ids of the users: their places, from 1, as long as the int does not overflow.
use quicframe.Prelude.{
  ℕ, suc, ◌+◌, ◌-◌, ◌^◌, ◌<◌, ◌≡◌, true, List, [], ◌∷◌, ◌++◌, some, length, length-append, ltb, ap,
  sym, ◌∙◌, arith, Bool-cases, inl, inr,
}
use quicframe.Prelude.Text.{Text, decimal, text_eq, text_eq_iff, text_eq_self}
use quicframe.Prelude.Text.Decimal.{decimal_injective}
use quicframe.Examples.BasicServer.{User, Server, int_text, find_user, new_user, add_user}

-- The ids are the numbers from `n` on.
abbrev pub NumberedFrom : ℕ → List User → Type 0
NumberedFrom n [] = Unit {0}
NumberedFrom n (u ∷ us) = (u.id ≡ decimal n) × NumberedFrom (suc n) us

NumberedFrom-append :
    (n : ℕ) (us : List User) (u : User)
    → NumberedFrom n us
    → u.id ≡ decimal (n + length us)
    → NumberedFrom n (us ++ u ∷ [])
NumberedFrom-append n [] u _ e = (e ∙ ap decimal (omega arith), tt)
NumberedFrom-append n (x ∷ us) u (first, rest) e =
    (first, NumberedFrom-append (suc n) us u rest (e ∙ ap decimal (omega arith)))

-- No user behind has a smaller number.
find_user-append :
    (n : ℕ) (us : List User) (u : User)
    → NumberedFrom n us
    → u.id ≡ decimal (n + length us)
    → find_user u.id (us ++ u ∷ []) ≡ some u
unfolding find_user
find_user-append n [] u _ e = rw (text_eq_self u.id)
find_user-append n (x ∷ us) u (first, rest) e = elim (Bool-cases (text_eq x.id u.id)) [
  | inl same ↦
      let k : n ≡ n + length (x ∷ us) =
        decimal_injective n (n + length (x ∷ us))
          (sym first ∙ ((text_eq_iff x.id u.id).0 same ∙ e)) in
      absurd (omega (arith, k))
  | inr other ↦ rw other (find_user-append (suc n) us u rest (e ∙ ap decimal (omega arith)))
]

-- While there are less than 2 ^ 63 - 1 users, these are numbered and the next number is the next.
abbrev pub IsNumbered : {L : Type 0} → Server L → Type 0
IsNumbered h =
    length h.users < 2 ^ 63 - 1 → NumberedFrom 1 h.users × (h.next_id ≡ length h.users + 1)

pub new_user-id :
    {L : Type 0} (name : Text) (h : Server L)
    → length h.users < 2 ^ 63 - 1
    → h.next_id ≡ length h.users + 1
    → (new_user name h).id ≡ decimal (1 + length h.users)
new_user-id name h few next =
    let k : h.next_id ≡ 1 + length h.users = omega (arith, next) in
    let small : ltb (1 + length h.users) (2 ^ 63) ≡ true = ground (arith, few) in
    ap int_text k ∙ rw small

pub add_user-IsNumbered :
    {L : Type 0} (name : Text) (h : Server L) → IsNumbered h → IsNumbered (add_user name h)
add_user-IsNumbered name h numbered few =
    let grown = length-append h.users (new_user name h ∷ []) in
    let few_before : length h.users < 2 ^ 63 - 1 = omega (arith, few, grown) in
    let (ids, next) = numbered few_before in
    (
      NumberedFrom-append 1 h.users (new_user name h) ids (new_user-id name h few_before next),
      omega (arith, grown, next, few),
    )

pub add_user-find :
    {L : Type 0} (name : Text) (h : Server L)
    → IsNumbered h
    → length h.users < 2 ^ 63 - 1
    → find_user (new_user name h).id (add_user name h).users ≡ some (new_user name h)
add_user-find name h numbered few =
    let (ids, next) = numbered few in
    find_user-append 1 h.users (new_user name h) ids (new_user-id name h few next)
