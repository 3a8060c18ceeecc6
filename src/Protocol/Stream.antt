-- ===== src/Protocol/Stream.antt =====
-- What the encoder writes and the decoder reads, proved to fit: one frame, then a whole stream.
pub mod OneFrame
pub mod Parse
pub mod Pieces
pub mod Receive
pub mod Single
pub mod Errors
use fernq.Prelude.{ℕ, ◌≤◌, ◌≡◌, true, length}
use fernq.Prelude.Text.{is_utf8}
use fernq.Prelude.Bytes.{Bytes}
use fernq.Protocol.{max_name_length}
use fernq.Protocol.Frame.{IsChannelId}
use fernq.Protocol.Encoder.{Stream}

-- A name that the protocol can carry: not empty, at most 128 bytes, and a Rust string.
pub record IsName (name : Bytes) : Type 0 where
  pub filled : 1 ≤ length name
  pub fits : length name ≤ max_name_length
  pub utf8 : is_utf8 name ≡ true

pub record IsStream (s : Stream) : Type 0 where
  pub source : IsName s.source_name
  pub target : IsName s.target_name
  pub channel : IsChannelId s.channel_id
