-- ===== src/Cable/Types.antt =====
-- cable/src/lib.rs: the shared types.
use cable_rs.Base.{ℕ, List}

-- Byte strings: a `String` is its UTF-8 bytes, and a `[u8; n]` is a list of length n.
abbrev pub Channel : Type 0
Channel = List ℕ

abbrev pub Text : Type 0
Text = List ℕ

abbrev pub Topic : Type 0
Topic = List ℕ

abbrev pub Nickname : Type 0
Nickname = List ℕ

abbrev pub Hash : Type 0
Hash = List ℕ

abbrev pub CircuitId : Type 0
CircuitId = List ℕ

abbrev pub ReqId : Type 0
ReqId = List ℕ

abbrev pub PublicKey : Type 0
PublicKey = List ℕ

abbrev pub Payload : Type 0
Payload = List ℕ

abbrev pub Timestamp : Type 0
Timestamp = ℕ

pub record ChannelOptions : Type 0 where
  pub channel : Channel
  pub time_start : Timestamp
  pub time_end : Timestamp
  pub limit : ℕ

pub record UserInfo : Type 0 where
  pub key : List ℕ
  pub val : List ℕ
