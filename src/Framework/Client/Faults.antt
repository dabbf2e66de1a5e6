-- ===== src/Framework/Client/Faults.antt =====
-- What the client makes of the frame that it gets back.
use quicframe.Prelude.{ℕ, ◌≡◌, List, [], ◌++◌, ok, err, GoError, new, ap, ◌∙◌}
use quicframe.Prelude.Text.{Text, Bytes, codes, decimal}
use quicframe.Protocol.Types.{
  FrameType, Response, ErrorFrame, Value, request, frame_type_request, frame_type_response,
  frame_type_error,
}
use quicframe.Protocol.Stream.{Stream}
use quicframe.Protocol.Codec.{Msgpack, read_frame, decode_response, decode_error}
use quicframe.Protocol.Codec.Frames.{frame, Fits, write_frame-ok, read_frame-frame}
use quicframe.Framework.Client.{
  Reply, response, failed, panicked, request_body, new_request, send_request, after_write,
  read_reply, server_error, decoded, request_with_headers,
}

module _ (mp : Msgpack) (now : ℕ) (method path : Text) (headers : List (Text × Text)) (v : Value)
    (c : Stream) where
  abbrev pub call : Stream × Reply
  call = request_with_headers mp now method path headers v c

  -- The body and the request encode, the request fits, and its writes succeed.
  module _ (body payload : Bytes) (body_encodes : request_body mp v ≡ ok body)
      (encodes : mp.marshal (request (new_request now method path headers body)) ≡ ok payload)
      (fits : Fits payload) (clean : c.faults ≡ []) where
    abbrev pub written : Stream
    written = record c { output = c.output ++ frame frame_type_request payload }

    pub call-written : call ≡ ((read_frame written).0, read_reply mp (read_frame written).1)
    unfolding request_with_headers send_request
    call-written =
        ap (λ b. send_request mp b now method path headers c) body_encodes
        ∙ ap (after_write mp) (write_frame-ok mp frame_type_request _ payload c encodes fits clean)

    pub call-frame :
        (ft : FrameType) (answer rest : Bytes)
        → Fits answer
        → c.input ≡ frame ft answer ++ rest
        → call ≡ (record written { input = rest }, read_reply mp (ok (ft, answer)))
    call-frame ft answer rest small e =
        call-written
        ∙ ap (λ x. (x.0, read_reply mp x.1)) (read_frame-frame ft answer rest written small e)

    -- A response that decodes is returned.
    pub call-response :
        (answer rest : Bytes) (r : Response)
        → Fits answer
        → c.input ≡ frame frame_type_response answer ++ rest
        → mp.unmarshal_response answer ≡ ok r
        → call ≡ (record written { input = rest }, response r)
    unfolding read_reply decoded decode_response
    call-response answer rest r small e decodes =
        call-frame frame_type_response answer rest small e ∙ rw decodes

    -- An error frame that decodes becomes the call's error, with the frame's code and message. The
    -- request encodes, fits and is written, and the frame is at the front of what is received.
    pub call-error :
        (answer rest : Bytes) (x : ErrorFrame)
        → Fits answer
        → c.input ≡ frame frame_type_error answer ++ rest
        → mp.unmarshal_error answer ≡ ok x
        → call.1
          ≡ failed (
              new
                (codes "quicframe: server error " ++ (decimal x.code ++ (codes ": " ++ x.message))))
    unfolding read_reply server_error decode_error
    call-error answer rest x small e decodes =
        ap (λ x. x.1) (call-frame frame_type_error answer rest small e) ∙ rw decodes

    -- An error frame whose payload does not decode makes the client panic. The request encodes,
    -- fits and is written, and the frame is at the front of what is received.
    pub call-panics :
        (answer rest : Bytes) (why : GoError)
        → Fits answer
        → c.input ≡ frame frame_type_error answer ++ rest
        → mp.unmarshal_error answer ≡ err why
        → call.1
          ≡ panicked (codes "runtime error: invalid memory address or nil pointer dereference")
    unfolding read_reply server_error decode_error
    call-panics answer rest why small e bad =
        ap (λ x. x.1) (call-frame frame_type_error answer rest small e) ∙ rw bad
