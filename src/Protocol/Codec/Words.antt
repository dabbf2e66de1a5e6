-- ===== src/Protocol/Codec/Words.antt =====
-- The four length bytes of a frame: binary.BigEndian of protocol/codec.go.
use quicframe.Prelude.{ℕ, ◌^◌, ◌<◌, ◌≡◌, [], ◌∷◌, length, All, arith}
use quicframe.Prelude.Text.{Bytes}
use quicframe.Protocol.Codec.{put_uint32, uint32}

abbrev pub IsByte : ℕ → Type 0
IsByte b = b < 256

pub length-put_uint32 : (n : ℕ) → length (put_uint32 n) ≡ 4
unfolding put_uint32
length-put_uint32 n = omega arith

pub uint32-put_uint32 : (n : ℕ) → n < 2 ^ 32 → uint32 (put_uint32 n) ≡ n
unfolding put_uint32 uint32
uint32-put_uint32 n h = omega arith

pub put_uint32-uint32 : (bs : Bytes) → length bs ≡ 4 → All IsByte bs → put_uint32 (uint32 bs) ≡ bs
unfolding put_uint32 uint32
put_uint32-uint32 (a ∷ b ∷ c ∷ d ∷ []) h (ha, (hb, (hc, (hd, _)))) = ground arith
put_uint32-uint32 (a ∷ b ∷ c ∷ d ∷ e ∷ r) h k = absurd (omega arith)
put_uint32-uint32 _ h k = absurd (omega arith)
