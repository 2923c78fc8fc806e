-- ===== src/Core/Stream.antt =====
-- cable_core/src/stream.rs: live streams. The bounded channel of a stream is async_std's: of it the
-- model keeps the posts that were handed to it, in their order, and not its capacity.
use cable_rs.Base.{
  ℕ, Bool, true, false, ◌&&◌, not, List, [], ◌∷◌, ◌++◌, some, leb, nat_beq, if◌then◌else◌,
}
use cable_rs.Base.Equality.{◌==◌, option_eq}
use cable_rs.Cable.Post.{Post, get_channel, get_timestamp}
use cable_rs.Cable.Types.{ChannelOptions}

pub record LiveStream : Type 0 where
  pub id : ℕ
  pub options : ChannelOptions
  pub sender : List Post

abbrev pub new : ℕ → ChannelOptions → LiveStream
new id options = record { id = id; options = options; sender = [] }

abbrev pub send : Post → LiveStream → LiveStream
send p s = record s { sender = s.sender ++ (p ∷ []) }

-- The times of a stream: an end point of 0 is no bound, and both end points belong to it.
abbrev pub in_stream_times : ChannelOptions → ℕ → Bool
in_stream_times o t =
    if nat_beq o.time_start 0 && nat_beq o.time_end 0
    then true
    else if nat_beq o.time_start 0
    then leb t o.time_end
    else if nat_beq o.time_end 0
    then leb o.time_start t
    else leb o.time_start t && leb t o.time_end

unfoldable pub matches : LiveStream → Post → Bool
matches s p =
    if not (some s.options.channel == get_channel p)
    then false
    else in_stream_times s.options (get_timestamp p)

-- `Drop`: every stream with the id goes. Behind a removed element the loop's index stays.
abbrev pub drop_stream : ℕ → List LiveStream → List LiveStream
drop_stream id [] = []
drop_stream id (s ∷ ss) = let rest = drop_stream id ss in if nat_beq s.id id then rest else s ∷ rest
