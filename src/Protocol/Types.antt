-- ===== src/Protocol/Types.antt =====
-- protocol/types.go. A map of headers is an association list; a nil map or slice is the empty one.
-- `Value` stands for `interface{}`: what the framework stores in locals or hands to msgpack.
use quicframe.Prelude.{ℕ, ◌*◌, Bool, List}
use quicframe.Prelude.Text.{Text, Bytes}

-- `FrameType`, a uint8.
abbrev pub FrameType : Type 0
FrameType = ℕ

abbrev pub frame_type_request : FrameType
frame_type_request = 0x01

abbrev pub frame_type_response : FrameType
frame_type_response = 0x02

abbrev pub frame_type_stream_data : FrameType
frame_type_stream_data = 0x03

abbrev pub frame_type_stream_end : FrameType
frame_type_stream_end = 0x04

abbrev pub frame_type_error : FrameType
frame_type_error = 0x05

abbrev pub frame_type_ping : FrameType
frame_type_ping = 0x06

abbrev pub frame_type_pong : FrameType
frame_type_pong = 0x07

abbrev pub status_no_content : ℕ
status_no_content = 204

abbrev pub status_bad_request : ℕ
status_bad_request = 400

abbrev pub status_unauthorized : ℕ
status_unauthorized = 401

abbrev pub status_too_many_requests : ℕ
status_too_many_requests = 429

abbrev pub status_internal_server_error : ℕ
status_internal_server_error = 500

pub record Request : Type 0 where
  pub id : Text
  pub method : Text
  pub path : Text
  pub headers : List (Text × Text)
  pub body : Bytes
  pub stream : Bool

pub record Response : Type 0 where
  pub id : Text
  pub status : ℕ
  pub headers : List (Text × Text)
  pub body : Bytes
  pub stream : Bool

pub record StreamChunk : Type 0 where
  pub id : Text
  pub seq : ℕ
  pub chunk : Bytes
  pub final : Bool

pub record ErrorFrame : Type 0 where
  pub id : Text
  pub code : ℕ
  pub message : Text
  pub payload : Bytes

pub record PingFrame : Type 0 where
  pub timestamp : ℕ

-- A parsed `*jwt.Token`, as far as the middleware looks into it: `custom` claims are any other
-- implementation of `jwt.Claims` than `jwt.MapClaims`.
pub data Claims : Type 0 where
  map_claims : List (Text × Text) → Claims
  custom : ℕ → Claims

pub record Token : Type 0 where
  pub valid : Bool
  pub claims : Claims

-- `interface{}`. `other n` is a value of an application type, known by a number.
pub data Value : Type 0 where
  nil : Value
  bytes : Bytes → Value
  text : Text → Value
  number : ℕ → Value
  boolean : Bool → Value
  table : List (Text × Text) → Value
  tables : List (List (Text × Text)) → Value
  -- A `map[string]interface{}`: one entry, and the map of the others.
  entry : Text → Value → Value → Value
  token : Token → Value
  request : Request → Value
  response : Response → Value
  chunk : StreamChunk → Value
  error : ErrorFrame → Value
  ping : PingFrame → Value
  other : ℕ → Value

-- 64 MiB.
abbrev pub max_frame_size : ℕ
max_frame_size = 64 * 1024 * 1024
