-- ===== src/Protocol/Stream/Steps.antt =====
-- Stepping through computations on a stream.
use quicframe.Prelude.{
  ℕ, ◌≡◌, refl, [], ◌++◌, Result, ok, err, GoError, wrap, length, leb, Option, none, some, List,
  ◌∷◌, take, drop, le→leb, take-length-append, drop-length-append, length-append, arith,
  append_assoc, append-nil, sym, ap, ◌∙◌, take-append-drop, Bool-cases, inl, inr, length-take,
}
use quicframe.Prelude.Text.{Text, Bytes}
use quicframe.Protocol.Stream.{
  Stream, Io, Fault, bind_result, wrap_result, write, write_step, read_full, read_failure,
}

module _ {A B : Type 0} where
  pub bind_result-ok :
      {x : Stream × Result A} {s : Stream} {a : A} {r : Stream × Result B} (f : A → Io B)
      → x ≡ (s, ok a)
      → f a s ≡ r
      → bind_result x f ≡ r
  bind_result-ok f e h = rw e h

  pub bind_result-err :
      {x : Stream × Result A} {s : Stream} {e : GoError} (f : A → Io B)
      → x ≡ (s, err e)
      → bind_result x f ≡ (s, err e)
  bind_result-err f h = rw h

module _ {A : Type 0} where
  pub wrap_result-ok :
      (prefix : Text) {x : Stream × Result A} {s : Stream} {a : A}
      → x ≡ (s, ok a)
      → wrap_result prefix x ≡ (s, ok a)
  wrap_result-ok prefix e = rw e

  pub wrap_result-err :
      (prefix : Text) {x : Stream × Result A} {s : Stream} {e : GoError}
      → x ≡ (s, err e)
      → wrap_result prefix x ≡ (s, err (wrap prefix e))
  wrap_result-err prefix h = rw h

pub write-ok :
    (bs : Bytes) (s : Stream)
    → s.faults ≡ []
    → write bs s ≡ (record s { output = s.output ++ bs }, ok tt)
unfolding write
write-ok bs s h = rw h

pub read_full-append :
    (n : ℕ) (xs ys : Bytes) (s : Stream)
    → s.input ≡ xs ++ ys
    → n ≡ length xs
    → read_full n s ≡ (record s { input = ys }, ok xs)
unfolding read_full
read_full-append n xs ys s e h = rw (
  e,
  h,
  le→leb (length xs) (length (xs ++ ys)) (omega (arith, length-append xs ys)),
  take-length-append xs ys,
  drop-length-append xs ys,
)

-- A write appends a first part of its bytes: all of them if it succeeds.
pub record Appends (s : Stream) (bs : Bytes) (x : Stream × Result (Unit {0})) : Type 0 where
  pub done : Bytes
  pub left : Bytes
  pub split : done ++ left ≡ bs
  pub output : x.0.output ≡ s.output ++ done
  pub input : x.0.input ≡ s.input
  pub complete : x.1 ≡ ok tt → left ≡ []

write_step-Appends :
    (fs : List (Option Fault)) (bs : Bytes) (s : Stream) → Appends s bs (write_step fs bs s)
unfolding write_step
write_step-Appends [] bs s = record {
  done = bs;
  left = [];
  split = append-nil bs;
  output = refl;
  input = refl;
  complete = λ _. refl;
}
write_step-Appends (none ∷ fs) bs s = record {
  done = bs;
  left = [];
  split = append-nil bs;
  output = refl;
  input = refl;
  complete = λ _. refl;
}
write_step-Appends (some f ∷ fs) bs s = record {
  done = take f.count bs;
  left = drop f.count bs;
  split = take-append-drop f.count bs;
  output = refl;
  input = refl;
  complete = λ h. cc;
}

pub write-Appends : (bs : Bytes) (s : Stream) → Appends s bs (write bs s)
unfolding write
write-Appends bs s = write_step-Appends s.faults bs s

pub wrap_result-Appends :
    (prefix : Text) {s : Stream} {bs : Bytes} (x : Stream × Result (Unit {0}))
    → Appends s bs x
    → Appends s bs (wrap_result prefix x)
wrap_result-Appends prefix (s', ok u) h = h
wrap_result-Appends prefix (s', err e) h = record {
  done = h.done;
  left = h.left;
  split = h.split;
  output = h.output;
  input = h.input;
  complete = λ q. cc;
}

pub bind_result-Appends :
    {s : Stream} {xs ys : Bytes} (x : Stream × Result (Unit {0})) (k : Io (Unit {0}))
    → Appends s xs x
    → ((t : Stream) → Appends t ys (k t))
    → Appends s (xs ++ ys) (bind_result x (λ _. k))
bind_result-Appends {s} {xs} {ys} (s', err e) k h g = record {
  done = h.done;
  left = h.left ++ ys;
  split = sym (append_assoc h.done h.left ys) ∙ ap (λ b. b ++ ys) h.split;
  output = h.output;
  input = h.input;
  complete = λ e. cc;
}
bind_result-Appends {s} {xs} {ys} (s', ok u) k h g =
    let next = g s' in
    let whole : h.done ≡ xs =
      sym (append-nil h.done) ∙ ap (λ b. h.done ++ b) (sym (h.complete refl)) ∙ h.split in
    record {
      done = xs ++ next.done;
      left = next.left;
      split = append_assoc xs next.done next.left ∙ ap (λ b. xs ++ b) next.split;
      output =
          next.output
          ∙ ap (λ b. b ++ next.done) (h.output ∙ ap (λ b. s.output ++ b) whole)
          ∙ append_assoc s.output xs next.done;
      input = next.input ∙ h.input;
      complete = next.complete;
    }

-- Inversion of what succeeded.
module _ {A B : Type 0} where
  pub bind_result_inv :
      (x : Stream × Result A) (f : A → Io B) {t : Stream} {b : B}
      → bind_result x f ≡ (t, ok b)
      → (s : Stream) × (a : A) × (x ≡ (s, ok a)) × (f a s ≡ (t, ok b))
  bind_result_inv (s, ok a) f h = (s, a, refl, h)
  bind_result_inv (s, err e) f h = cc

pub wrap_result_inv :
    {A : Type 0} (prefix : Text) (x : Stream × Result A) {s : Stream} {a : A}
    → wrap_result prefix x ≡ (s, ok a)
    → x ≡ (s, ok a)
wrap_result_inv prefix (s', ok a') h = h
wrap_result_inv prefix (s', err e) h = cc

pub read_full_inv :
    (n : ℕ) (s : Stream) {t : Stream} {bs : Bytes}
    → read_full n s ≡ (t, ok bs)
    → (length bs ≡ n) × (s.input ≡ bs ++ t.input) × (t.output ≡ s.output)
unfolding read_full
read_full_inv n s {t} {bs} h = elim (Bool-cases (leb n (length s.input))) [
  | inl enough ↦
      let same : (record s { input = drop n s.input }, ok (take n s.input)) ≡ (t, ok bs) =
        rw enough at h in
      (ground (arith, length-take n s.input), ground (arith, take-append-drop n s.input), cc)
  | inr short ↦
      let bad : ◌≡◌ {A = Stream × Result Bytes}
          (record s { input = [] }, err (read_failure s.ending s.input)) (t, ok bs) =
        rw short at h in
      cc
]
