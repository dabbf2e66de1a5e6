-- ===== src/Examples/PushStreams/Output.antt =====
-- What a loop over items puts on the wire.
use quicframe.Prelude.{
  suc, ◌+◌, ◌<◌, ◌^◌, ◌≡◌, refl, false, List, [], ◌∷◌, none, ok, All, length, ap, sym, ◌∙◌, arith,
}
use quicframe.Prelude.Text.{Bytes}
use quicframe.Protocol.Types.{Value, StreamChunk}
use quicframe.Protocol.Stream.{Stream}
use quicframe.Protocol.Codec.{Msgpack}
use quicframe.Framework.Context.Writer.{StreamWriter}
use quicframe.Framework.Context.Streaming
use quicframe.Framework.Context.Streaming.{Call, calls, chunks, Encodes}
use quicframe.Examples.ItemStreams.Output.{write-clean}
use quicframe.Examples.PushStreams.{write_failure, write_bytes, write_value, write_values, go_on}

module _ (item : Value → Bytes) where
  -- A call of Write for each item.
  abbrev pub value_calls : List Value → List Call
  value_calls [] = []
  value_calls (v ∷ vs) = Streaming.write (item v) ∷ value_calls vs

  pub length-value_calls : (vs : List Value) → length (value_calls vs) ≡ length vs
  length-value_calls [] = refl
  length-value_calls (v ∷ vs) = ap suc (length-value_calls vs)

module _ (mp : Msgpack) (enc : StreamChunk → Bytes) (item : Value → Bytes) where
  abbrev pub Marshals : Value → Type 0
  Marshals v = mp.marshal v ≡ ok (item v)

  -- On a clean stream the loop writes every item.
  pub write_values-clean :
      (vs : List Value) (sw : StreamWriter) (s : Stream)
      → All Marshals vs
      → sw.closed ≡ false
      → sw.seq + length vs < 2 ^ 64
      → s.faults ≡ []
      → All (Encodes mp enc) (chunks sw.request_id sw.seq (value_calls item vs))
      → write_values mp vs (sw, s) ≡ (calls mp (value_calls item vs) (sw, s), none)
  unfolding write_values
  write_values-clean [] sw s ms h few clean all = refl
  write_values-clean (v ∷ vs) sw s (m, ms) h few clean (first, rest) =
      let written = write-clean mp enc (item v) sw s h (omega arith) clean first in
      let one : write_value mp v (sw, s) ≡ _ =
        ap (λ r. write_bytes mp r (sw, s)) m ∙ ap (λ w. ((w.0, w.1), write_failure w.2)) written in
      ap (λ w. go_on w.1 w.0 (write_values mp vs w.0)) one
      ∙ (write_values-clean vs _ _ ms h (omega arith) clean rest
          ∙ ap (λ w. (calls mp (value_calls item vs) (w.0, w.1), none)) (sym written))
