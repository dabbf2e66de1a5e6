-- ===== src/Framework/Context/Sending.antt =====
-- At most one reply: the `sent` flag of framework/context.go over any sequence of reply calls.
use quicframe.Prelude.{
  ℕ, ◌≡◌, refl, Bool, true, false, List, [], ◌∷◌, Result, ok, err, sym, subst, ◌⊎◌, inl, inr,
  Bool-cases,
}
use quicframe.Prelude.Text.{Text, Bytes}
use quicframe.Protocol.Types.{Value}
use quicframe.Protocol.Codec.{Msgpack, write_error}
use quicframe.Protocol.Codec.Emission.{IsBounded, Emits, Emits-nothing, write_frame-Emits}
use quicframe.Framework.Context
use quicframe.Framework.Context.{Context, write_response, send_encoded, reply_error, error_payload}
use quicframe.Framework.Context.Writer

-- A call by which a handler replies, with its arguments.
pub data Reply : Type 0 where
  send : ℕ → Bytes → Reply
  msgpack : ℕ → Value → Reply
  no_content : Reply
  error : ℕ → Text → List Value → Reply
  new_stream : ℕ → List (Text × Text) → Reply

module _ (mp : Msgpack) where
  abbrev pub reply : Reply → Context → Context
  reply (send status body) c = (Context.send mp status body c).0
  reply (msgpack status v) c = (Context.msgpack mp status v c).0
  reply no_content c = (Context.no_content mp c).0
  reply (error code message args) c = (Context.error mp code message args c).0
  reply (new_stream status headers) c = (Writer.new_stream mp status headers c).0

  abbrev pub replies : List Reply → Context → Context
  replies [] c = c
  replies (r ∷ rs) c = replies rs (reply r c)

  send_encoded_sent :
      (status : ℕ) (body : Result Bytes) (c : Context)
      → c.sent ≡ true
      → (send_encoded mp status body c).0 ≡ c
  unfolding send_encoded write_response
  send_encoded_sent status (ok body) c h = rw h
  send_encoded_sent status (err e) c h = refl

  -- A call on a context whose reply was sent changes nothing.
  reply_sent : (r : Reply) (c : Context) → c.sent ≡ true → reply r c ≡ c
  unfolding Context.send Context.msgpack Context.no_content Context.error Writer.new_stream
  reply_sent (send status body) c h = rw h
  reply_sent (msgpack status v) c h = send_encoded_sent status (mp.marshal v) c h
  reply_sent no_content c h = rw h
  reply_sent (error code message args) c h = rw h
  reply_sent (new_stream status headers) c h = rw h

  replies_sent : (rs : List Reply) (c : Context) → c.sent ≡ true → replies rs c ≡ c
  replies_sent [] c h = refl
  replies_sent (r ∷ rs) c h = rw (reply_sent r c h) (replies_sent rs c h)

  -- Once a reply call has marked the context as sent, no later reply call changes the context or
  -- its stream.
  pub replies-after_sent :
      (r : Reply) (rs : List Reply) (c : Context)
      → (reply r c).sent ≡ true
      → replies (r ∷ rs) c ≡ reply r c
  replies-after_sent r rs c h = replies_sent rs (reply r c) h

module _ (mp : Msgpack) (bounded : IsBounded mp) where
  -- The first call that wins marks the context and adds at most one frame; one that fails before
  -- that leaves the context as it was.
  abbrev Replied : Context → Context → Type 0
  Replied c c' = ((c'.sent ≡ true) × Emits c.stream c'.stream) ⊎ (c' ≡ c)

  write_response-Replied :
      (status : ℕ) (headers : List (Text × Text)) (body : Bytes) (stream : Bool) (c : Context)
      → c.sent ≡ false
      → Replied c (write_response mp status headers body stream c).0
  unfolding write_response
  write_response-Replied status headers body stream c h =
      rw h (inl (refl, write_frame-Emits mp _ _ c.stream bounded (inl refl)))

  send_encoded-Replied :
      (status : ℕ) (body : Result Bytes) (c : Context)
      → c.sent ≡ false
      → Replied c (send_encoded mp status body c).0
  unfolding send_encoded
  send_encoded-Replied status (ok body) c h = write_response-Replied status _ body false c h
  send_encoded-Replied status (err e) c h = inr refl

  reply_error-Replied :
      (code : ℕ) (message : Text) (payload : Result Bytes) (c : Context)
      → c.sent ≡ true
      → ((reply_error mp code message payload c).0.sent ≡ true)
        × Emits c.stream (reply_error mp code message payload c).0.stream
  unfolding reply_error write_error
  reply_error-Replied code message (err e) c h = (h, Emits-nothing c.stream)
  reply_error-Replied code message (ok payload) c h =
      (h, write_frame-Emits mp _ _ c.stream bounded (inr refl))

  reply-Replied : (r : Reply) (c : Context) → c.sent ≡ false → Replied c (reply mp r c)
  unfolding Context.send Context.msgpack Context.no_content Context.error Writer.new_stream
  reply-Replied (send status body) c h = write_response-Replied status _ body false c h
  reply-Replied (msgpack status v) c h = send_encoded-Replied status (mp.marshal v) c h
  reply-Replied no_content c h = write_response-Replied _ _ _ false c h
  reply-Replied (error code message args) c h =
      rw h (inl (reply_error-Replied code message (error_payload mp args) _ refl))
  reply-Replied (new_stream status headers) c h =
      rw h (inl (refl, write_frame-Emits mp _ _ c.stream bounded (inl refl)))

  replies_unsent-Emits :
      (rs : List Reply) (c : Context) → c.sent ≡ false → Emits c.stream (replies mp rs c).stream
  replies_unsent-Emits [] c h = Emits-nothing c.stream
  replies_unsent-Emits (r ∷ rs) c h = elim (reply-Replied r c h) [
    | inl (won, emits) ↦ rw (replies_sent mp rs (reply mp r c) won) emits
    | inr same ↦
        subst (λ d. Emits c.stream (replies mp rs d).stream) (sym same)
          (replies_unsent-Emits rs c h)
  ]

  -- However often and in whatever way a handler replies, and whatever writes fail, what the peer gets
  -- is a first part of one reply frame, a response or an error: of one frame with its true length, so
  -- that no second frame follows a whole one. No encoded value is as long as 4 GiB.
  pub replies-Emits : (rs : List Reply) (c : Context) → Emits c.stream (replies mp rs c).stream
  replies-Emits rs c = elim (Bool-cases c.sent) [
    | inl sent ↦ rw (replies_sent mp rs c sent) (Emits-nothing c.stream)
    | inr unsent ↦ replies_unsent-Emits rs c unsent
  ]
