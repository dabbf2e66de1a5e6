-- ===== src/Examples/ChatHub/Subscribers.antt =====
-- How often a channel is subscribed, and what each operation on the rooms makes of that.
use quicframe.Prelude.{
  some_injective, ℕ, zero, suc, ◌+◌, ◌≤◌, ◌≡◌, refl, List, [], ◌∷◌, map, All, Option, none, some,
  if◌then◌else◌, Bool-cases, inl, inr, ap, sym, ◌∙◌, arith,
}
use quicframe.Prelude.Text.{Text, text_eq}
use quicframe.Prelude.Dict
use quicframe.Examples.ChatHub.{ChatRoom}
use quicframe.Examples.ChatHub.Channels.{one_at}

abbrev pub uses : ℕ → List (Text × ℕ) → ℕ
uses n [] = 0
uses n ((id, ch) ∷ m) = one_at n ch + uses n m

abbrev pub uses_of : ℕ → Option ℕ → ℕ
uses_of n none = 0
uses_of n (some ch) = one_at n ch

abbrev pub room_uses : ℕ → Option ChatRoom → ℕ
room_uses n none = 0
room_uses n (some room) = uses n room.subscribers

-- In all rooms together.
abbrev pub all_uses : ℕ → List (Text × ChatRoom) → ℕ
all_uses n [] = 0
all_uses n ((name, room) ∷ rooms) = uses n room.subscribers + all_uses n rooms

pub one_at_self : (n : ℕ) → one_at n n ≡ 1
one_at_self zero = refl
one_at_self (suc n) = one_at_self n

pub uses-insert :
    (n : ℕ) (id : Text) (ch : ℕ) (m : List (Text × ℕ))
    → uses n (Dict.insert id ch m) + uses_of n (Dict.lookup id m) ≡ uses n m + one_at n ch
unfolding Dict.insert Dict.lookup
uses-insert n id ch [] = omega arith
uses-insert n id ch ((j, w) ∷ m) = elim (Bool-cases (text_eq j id)) [
  | inl e ↦ rw e (omega arith)
  | inr e ↦ rw e (omega (arith, uses-insert n id ch m))
]

uses-delete_le : (n : ℕ) (id : Text) (m : List (Text × ℕ)) → uses n (Dict.delete id m) ≤ uses n m
unfolding Dict.delete
uses-delete_le n id [] = omega arith
uses-delete_le n id ((j, w) ∷ m) = elim (Bool-cases (text_eq j id)) [
  | inl e ↦ rw e (omega (arith, uses-delete_le n id m))
  | inr e ↦ rw e (omega (arith, uses-delete_le n id m))
]

pub uses-delete :
    (n : ℕ) (id : Text) (ch : ℕ) (m : List (Text × ℕ))
    → Dict.lookup id m ≡ some ch
    → uses n (Dict.delete id m) + one_at n ch ≤ uses n m
unfolding Dict.delete Dict.lookup
uses-delete n id ch [] h = cc
uses-delete n id ch ((j, w) ∷ m) h = elim (Bool-cases (text_eq j id)) [
  | inl e ↦
      let same : w ≡ ch =
        some_injective (ap (λ b. if b then some w else Dict.lookup id m) (sym e) ∙ h) in
      rw e (omega (arith, uses-delete_le n id m, ap (one_at n) same))
  | inr e ↦
      let later = ap (λ b. if b then some w else Dict.lookup id m) (sym e) ∙ h in
      rw e (omega (arith, uses-delete n id ch m later))
]

pub all_uses-insert :
    (n : ℕ) (name : Text) (room : ChatRoom) (rooms : List (Text × ChatRoom))
    → all_uses n (Dict.insert name room rooms) + room_uses n (Dict.lookup name rooms)
      ≡ all_uses n rooms + uses n room.subscribers
unfolding Dict.insert Dict.lookup
all_uses-insert n name room [] = omega arith
all_uses-insert n name room ((j, r) ∷ rooms) = elim (Bool-cases (text_eq j name)) [
  | inl e ↦ rw e (omega arith)
  | inr e ↦ rw e (omega (arith, all_uses-insert n name room rooms))
]

pub room_uses_le :
    (n : ℕ) (name : Text) (rooms : List (Text × ChatRoom))
    → room_uses n (Dict.lookup name rooms) ≤ all_uses n rooms
unfolding Dict.lookup
room_uses_le n name [] = omega arith
room_uses_le n name ((j, r) ∷ rooms) = elim (Bool-cases (text_eq j name)) [
  | inl e ↦ rw e (omega arith)
  | inr e ↦ rw e (omega (arith, room_uses_le n name rooms))
]

pub uses_of_le : (n : ℕ) (id : Text) (m : List (Text × ℕ)) → uses_of n (Dict.lookup id m) ≤ uses n m
unfolding Dict.lookup
uses_of_le n id [] = omega arith
uses_of_le n id ((j, w) ∷ m) = elim (Bool-cases (text_eq j id)) [
  | inl e ↦ rw e (omega arith)
  | inr e ↦ rw e (omega (arith, uses_of_le n id m))
]

-- Each channel of a room's subscribers is used.
pub used :
    (P : ℕ → Type 0) (m : List (Text × ℕ))
    → ((ch : ℕ) → 1 ≤ uses ch m → P ch)
    → All P (map (λ (entry : Text × ℕ). entry.1) m)
used P [] h = tt
used P ((id, ch) ∷ m) h =
    (h ch (omega (arith, one_at_self ch)), used P m (λ c more. h c (omega (arith, more))))
