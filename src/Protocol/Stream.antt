-- ===== src/Protocol/Stream.antt =====
-- The byte stream under a frame (io.ReadWriter): what the peer has sent, what was written, and how
-- each further call of Write ends. Reads and writes that fail are part of the model.
pub mod Steps
use quicframe.Prelude.{
  ℕ, ◌≡◌, refl, Option, none, some, List, [], ◌∷◌, ◌++◌, Result, ok, err, GoError, new, wrap, take,
  drop, length, leb, if◌then◌else◌, Bool, true, false,
}
use quicframe.Prelude.Text.{Text, Bytes, codes, is_empty}

-- A Write that fails after `count` bytes.
pub record Fault : Type 0 where
  pub count : ℕ
  pub reason : Text

-- `ending` is `none` where the input ends by io.EOF, and a transport error's text otherwise. The
-- head of `faults` is the outcome of the next Write; when the list is empty all Writes succeed.
pub record Stream : Type 0 where
  pub input : Bytes
  pub ending : Option Text
  pub output : Bytes
  pub faults : List (Option Fault)

-- Computations on a stream that may fail.
abbrev pub Io : Type 0 → Type 0
Io A = Stream → Stream × Result A

abbrev pub bind_result : {A B : Type 0} → Stream × Result A → (A → Io B) → Stream × Result B
bind_result (s, ok a) f = f a s
bind_result (s, err e) f = (s, err e)

infixl 5 ◌>>=◌ ◌>>◌
abbrev pub ◌>>=◌ : {A B : Type 0} → Io A → (A → Io B) → Io B
◌>>=◌ m f s = bind_result (m s) f

abbrev pub ◌>>◌ : {B : Type 0} → Io (Unit {0}) → Io B → Io B
m >> k = m >>= λ _. k

abbrev pub pure : {A : Type 0} → A → Io A
pure a s = (s, ok a)

-- A result computed without the stream.
abbrev pub lift : {A : Type 0} → Result A → Io A
lift r s = (s, r)

abbrev pub fail : {A : Type 0} → GoError → Io A
fail e s = (s, err e)

-- `if err != nil { return fmt.Errorf(prefix + "%w", err) }`
abbrev pub wrap_result : {A : Type 0} → Text → Stream × Result A → Stream × Result A
wrap_result prefix (s, ok a) = (s, ok a)
wrap_result prefix (s, err e) = (s, err (wrap prefix e))

abbrev pub wrapping : {A : Type 0} → Text → Io A → Io A
wrapping prefix m s = wrap_result prefix (m s)

write_step : List (Option Fault) → Bytes → Io (Unit {0})
write_step [] bs s = (record s { output = s.output ++ bs }, ok tt)
write_step (none ∷ fs) bs s = (record s { output = s.output ++ bs; faults = fs }, ok tt)
write_step (some f ∷ fs) bs s =
    (record s { output = s.output ++ take f.count bs; faults = fs }, err (new f.reason))

-- `w.Write(bs)`
unfoldable pub write : Bytes → Io (Unit {0})
unfolding write_step
write bs s = write_step s.faults bs s

abbrev pub eof : GoError
eof = new (codes "EOF")

abbrev pub unexpected_eof : GoError
unexpected_eof = new (codes "unexpected EOF")

-- The error of `io.ReadFull` when the input `bs` was too short.
read_failure : Option Text → Bytes → GoError
read_failure (some reason) bs = new reason
read_failure none [] = eof
read_failure none (_ ∷ _) = unexpected_eof

-- `io.ReadFull(r, buf)` with `n = len(buf)`
unfoldable pub read_full : ℕ → Io Bytes
unfolding read_failure
read_full n s =
    if leb n (length s.input)
    then (record s { input = drop n s.input }, ok (take n s.input))
    else (record s { input = [] }, err (read_failure s.ending s.input))
