-- ===== src/Examples/ChatHub/Channels.antt =====
-- Which channels are open, and what each operation on the table of channels makes of that.
use quicframe.Prelude.{
  ℕ, zero, suc, ◌+◌, ◌≤◌, ◌≡◌, refl, Bool, true, false, List, [], ◌∷◌, ◌++◌, some, length, ltb,
  if◌then◌else◌, Bool-cases, inl, inr, ap, sym, arith,
}
use quicframe.Examples.ChatHub.{
  ChatEvent, Channel, close_unless, and_front, close_channel, put_event, send, receive,
}

-- 1 for the number of an open channel, and 0 otherwise.
abbrev pub open_at : ℕ → List Channel → ℕ
open_at n [] = 0
open_at zero (c ∷ cs) = if c.closed then 0 else 1
open_at (suc n) (c ∷ cs) = open_at n cs

abbrev pub one_at : ℕ → ℕ → ℕ
one_at zero zero = 1
one_at zero (suc ch) = 0
one_at (suc n) zero = 0
one_at (suc n) (suc ch) = one_at n ch

pub open_at_le : (n : ℕ) (cs : List Channel) → open_at n cs ≤ 1
open_at_le n [] = omega arith
open_at_le zero (c ∷ cs) = at_most_one c.closed
  where
    at_most_one : (b : Bool) → (if b then 0 else 1) ≤ 1
    at_most_one true = omega arith
    at_most_one false = omega arith
open_at_le (suc n) (c ∷ cs) = open_at_le n cs

pub open_at-append :
    (n : ℕ) (cs : List Channel) (c : Channel)
    → c.closed ≡ false
    → open_at n (cs ++ c ∷ []) ≡ open_at n cs + one_at n (length cs)
open_at-append zero [] c h = rw h
open_at-append (suc n) [] c h = refl
open_at-append zero (x ∷ cs) c h = omega arith
open_at-append (suc n) (x ∷ cs) c h = open_at-append n cs c h

open_iff : (b : Bool) → ◌≡◌ {A = ℕ} (if b then 0 else 1) 1 → b ≡ false
open_iff true h = absurd (omega (arith, h))
open_iff false h = refl

-- A channel that is open can be closed, and no other is closed by that.
pub close_channel-open :
    (ch : ℕ) (cs : List Channel)
    → open_at ch cs ≡ 1
    → (cs' : List Channel) × (close_channel ch cs ≡ some cs')
      × ((n : ℕ) → open_at n cs' + one_at n ch ≡ open_at n cs)
unfolding close_channel
close_channel-open ch [] h = absurd (omega (arith, h))
close_channel-open zero (c ∷ cs) h =
    (record c { closed = true } ∷ cs, ap (λ b. close_unless b c cs) (open_iff c.closed h), others)
  where
    others : (n : ℕ) → open_at n (record c { closed = true } ∷ cs) + one_at n 0 ≡ open_at n (c ∷ cs)
    others zero = sym h
    others (suc n) = omega arith
close_channel-open (suc ch) (c ∷ cs) h =
    let (cs', closed, same) = close_channel-open ch cs h in
    (c ∷ cs', ap (and_front c) closed, shifted cs' same)
  where
    shifted :
        (cs' : List Channel)
        → ((n : ℕ) → open_at n cs' + one_at n ch ≡ open_at n cs)
        → (n : ℕ) → open_at n (c ∷ cs') + one_at n (suc ch) ≡ open_at n (c ∷ cs)
    shifted cs' same zero = omega arith
    shifted cs' same (suc n) = same n

-- One channel takes the place of another that is open as well.
open_at-front :
    (c c' : Channel) (cs : List Channel) (n : ℕ)
    → c'.closed ≡ c.closed
    → open_at n (c' ∷ cs) ≡ open_at n (c ∷ cs)
open_at-front c c' cs zero e = ap (λ b. if b then 0 else 1) e
open_at-front c c' cs (suc n) e = refl

put_event-open :
    (event : ChatEvent) (c : Channel) (cs : List Channel)
    → c.closed ≡ false
    → (cs' : List Channel) × (put_event event c cs ≡ some cs')
      × ((n : ℕ) → open_at n cs' ≡ open_at n (c ∷ cs))
put_event-open event c cs e = elim (Bool-cases (ltb (length c.buffer) 32)) [
  | inl fits ↦
      let c' = λ (x : Channel). record x { buffer = x.buffer ++ event ∷ [] } in
      (c' c ∷ cs, rw (e, fits), λ n. open_at-front c (c' c) cs n refl)
  | inr full ↦ (c ∷ cs, rw (e, full), λ n. refl)
]

-- A send to an open channel goes through, and no channel is opened or closed.
pub send-open :
    (event : ChatEvent) (ch : ℕ) (cs : List Channel)
    → open_at ch cs ≡ 1
    → (cs' : List Channel) × (send event ch cs ≡ some cs')
      × ((n : ℕ) → open_at n cs' ≡ open_at n cs)
unfolding send
send-open event ch [] h = absurd (omega (arith, h))
send-open event zero (c ∷ cs) h = put_event-open event c cs (open_iff c.closed h)
send-open event (suc ch) (c ∷ cs) h =
    let (cs', sent, same) = send-open event ch cs h in
    (c ∷ cs', ap (and_front c) sent, shifted cs' same)
  where
    shifted :
        (cs' : List Channel)
        → ((n : ℕ) → open_at n cs' ≡ open_at n cs)
        → (n : ℕ) → open_at n (c ∷ cs') ≡ open_at n (c ∷ cs)
    shifted cs' same zero = refl
    shifted cs' same (suc n) = same n

pub receive-open : (ch : ℕ) (cs : List Channel) (n : ℕ) → open_at n (receive ch cs) ≡ open_at n cs
unfolding receive
receive-open ch [] n = refl
receive-open zero (c ∷ cs) zero = refl
receive-open zero (c ∷ cs) (suc n) = refl
receive-open (suc ch) (c ∷ cs) zero = refl
receive-open (suc ch) (c ∷ cs) (suc n) = receive-open ch cs n
