-- ===== src/Protocol/Codec/Reading.antt =====
-- What ReadFrame accepts, and what it refuses before it reads a body.
use quicframe.Prelude.{
  ℕ, ◌+◌, ◌<◌, ◌≤◌, ◌≡◌, refl, [], ◌∷◌, ◌++◌, length, arith, ok, err, Result, ok_injective, leb,
  Bool-cases, append_assoc, ◌⊎◌, inl, inr, All, ap, sym, ◌∙◌, subst, All-append_left, new,
}
use quicframe.Prelude.Text.{Text, Bytes, codes, decimal}
use quicframe.Protocol.Types.{FrameType, max_frame_size}
use quicframe.Protocol.Stream.{Stream, bind_result, wrapping, read_full, Io, pure, ◌>>=◌, ◌>>◌}
use quicframe.Protocol.Stream.Steps.{
  bind_result-ok, bind_result-err, wrap_result-ok, read_full-append, read_full_inv, bind_result_inv,
  wrap_result_inv,
}
use quicframe.Protocol.Codec.{uint32, check_length, split_frame, read_frame}
use quicframe.Protocol.Codec.Words.{IsByte, put_uint32-uint32}
use quicframe.Protocol.Codec.Frames.{frame, Fits}

check_length_refuses :
    (n : ℕ) (s : Stream)
    → (n ≡ 0) ⊎ (max_frame_size < n)
    → check_length n s
      ≡ (s, err (new (codes "quicframe/protocol: invalid frame length " ++ decimal n)))
unfolding check_length
check_length_refuses n s (inl none) = ground arith
check_length_refuses n s (inr large) = ground arith

check_length_inv :
    (n : ℕ) (s : Stream) {t : Stream} {u : Unit {0}}
    → check_length n s ≡ (t, ok u)
    → (0 < n) × (n ≤ max_frame_size) × (t ≡ s)
unfolding check_length
check_length_inv n s h = ground arith

-- A header that announces an empty frame or one above 64 MiB is refused with an error that names
-- the length, after exactly the four header bytes: no body is read or allocated.
pub read_frame_refuses :
    (header rest : Bytes) (s : Stream)
    → s.input ≡ header ++ rest
    → length header ≡ 4
    → (uint32 header ≡ 0) ⊎ (max_frame_size < uint32 header)
    → read_frame s ≡ (
      record s { input = rest },
      err (new (codes "quicframe/protocol: invalid frame length " ++ decimal (uint32 header))),
    )
unfolding read_frame
read_frame_refuses header rest s e four bad =
    bind_result-ok _ (wrap_result-ok _ (read_full-append 4 header rest s e (sym four)))
      (bind_result-err _ (check_length_refuses (uint32 header) (record s { input = rest }) bad))

frame_of_parts :
    (header buf rest input payload : Bytes) (ty : FrameType)
    → All IsByte input
    → length header ≡ 4
    → input ≡ header ++ (buf ++ rest)
    → length buf ≡ uint32 header
    → 0 < uint32 header
    → uint32 header ≤ max_frame_size
    → split_frame buf ≡ (ty, payload)
    → (input ≡ frame ty payload ++ rest) × Fits payload
unfolding split_frame
frame_of_parts header [] rest input payload ty h four e full pos small parts = absurd (omega arith)
frame_of_parts header (t ∷ p) rest input payload ty h four e full pos small parts =
    let same : p ≡ payload = ap (λ x. x.1) parts in
    let announced : 1 + length p ≡ uint32 header = omega arith in
    let bytes =
      put_uint32-uint32 header four
        (All-append_left IsByte header ((t ∷ p) ++ rest) (subst (All IsByte) e h)) in
    rw (← same, ← ap (λ x. x.0) parts, announced, bytes)
      (e ∙ sym (append_assoc header (t ∷ p) rest), omega arith)

-- Every frame that ReadFrame returns stood at the front of the input, in the documented layout,
-- below the size limit, and exactly its bytes were taken. The input is one of bytes.
pub read_frame_sound :
    (s t : Stream) (ty : FrameType) (payload : Bytes)
    → All IsByte s.input
    → read_frame s ≡ (t, ok (ty, payload))
    → (s.input ≡ frame ty payload ++ t.input) × Fits payload × (t.output ≡ s.output)
unfolding read_frame
read_frame_sound s t ty payload h e =
    let (s1, header, r1, e1) = bind_result_inv _ _ e in
    let (four, in1, out1) = read_full_inv 4 s (wrap_result_inv _ _ r1) in
    let (s2, u, r2, e2) = bind_result_inv _ _ e1 in
    let (pos, small, same) = check_length_inv (uint32 header) s1 r2 in
    let (s3, buf, r3, e3) = bind_result_inv _ _ e2 in
    let (full, in3, out3) = read_full_inv (uint32 header) s2 (wrap_result_inv _ _ r3) in
    let final : s3 ≡ t = ap (λ x. x.0) e3 in
    let parts : split_frame buf ≡ (ty, payload) = ok_injective (ap (λ x. x.1) e3) in
    let input : s.input ≡ header ++ (buf ++ t.input) =
      in1
      ∙ ap (λ b. header ++ b)
          (sym (ap (λ x. x.input) same) ∙ in3 ∙ ap (λ x. buf ++ x.input) final) in
    let (layout, fits) =
      frame_of_parts header buf t.input s.input payload ty h four input full pos small parts in
    (layout, fits, sym (ap (λ x. x.output) final) ∙ out3 ∙ ap (λ x. x.output) same ∙ out1)

-- Reading writes nothing, however it ends.
abbrev IsSilent : {A : Type 0} → Io A → Type 0
IsSilent m = (s : Stream) → (m s).0.output ≡ s.output

bind_result-silent :
    {A B : Type 0} (x : Stream × Result A) (f : A → Io B)
    → ((a : A) → IsSilent (f a))
    → (bind_result x f).0.output ≡ x.0.output
bind_result-silent (t, ok a) f k = k a t
bind_result-silent (t, err e) f k = refl

>>=-IsSilent :
    {A B : Type 0} (m : Io A) (f : A → Io B)
    → IsSilent m
    → ((a : A) → IsSilent (f a))
    → IsSilent (m >>= f)
>>=-IsSilent m f h k s = bind_result-silent (m s) f k ∙ h s

wrapped_read-IsSilent : (prefix : Text) (n : ℕ) → IsSilent (wrapping prefix (read_full n))
unfolding read_full
wrapped_read-IsSilent prefix n s = elim (Bool-cases (leb n (length s.input))) [
  | inl e ↦ rw e
  | inr e ↦ rw e
]

check_length-IsSilent : (n : ℕ) → IsSilent (check_length n)
unfolding check_length
check_length-IsSilent n s = ground arith

abbrev read_body : ℕ → Io (FrameType × Bytes)
read_body n = do
  buf ← wrapping (codes "quicframe/protocol: read body: ") (read_full n)
  pure (split_frame buf)

read_body-IsSilent : (n : ℕ) → IsSilent (read_body n)
read_body-IsSilent n =
    >>=-IsSilent (wrapping (codes "quicframe/protocol: read body: ") (read_full n))
      (λ buf. pure (split_frame buf)) (wrapped_read-IsSilent _ n) (λ buf s. refl)

pub read_frame-output : (s : Stream) → (read_frame s).0.output ≡ s.output
unfolding read_frame
read_frame-output =
    >>=-IsSilent (wrapping (codes "quicframe/protocol: read header: ") (read_full 4))
      (λ header. check_length (uint32 header) >> read_body (uint32 header))
      (wrapped_read-IsSilent _ 4)
      λ header.
        >>=-IsSilent (check_length (uint32 header)) (λ _. read_body (uint32 header))
          (check_length-IsSilent (uint32 header)) (λ _. read_body-IsSilent (uint32 header))
