-- ===== src/Protocol.antt =====
-- protocol/types.go and protocol/codec.go: wire types, the stream that frames travel on, the codec.
pub mod Types
pub mod Stream
pub mod Codec
