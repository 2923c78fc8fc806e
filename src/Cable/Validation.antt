-- ===== src/Cable/Validation.antt =====
-- cable/src/validation.rs and `UserInfo` of cable/src/lib.rs: the limits on names and texts.
use cable_rs.Base.{ℕ, ◌&&◌, not, List, [], ◌∷◌, length, ltb, leb, if◌then◌else◌}
use cable_rs.Cable.Error.{
  Outcome, ok, raise, channel_length_incorrect, text_length_incorrect, topic_length_incorrect,
  username_length_incorrect,
}
use cable_rs.Cable.Types.{Channel, Text, Topic, UserInfo}
use cable_rs.Cable.Utf8.{chars_count}

unfoldable pub validate_channel : Channel → Outcome (Unit {0})
validate_channel channel =
    let channel_len = chars_count channel in
    if not (leb 1 channel_len && leb channel_len 64)
    then raise (channel_length_incorrect channel channel_len)
    else ok tt

unfoldable pub validate_text : Text → Outcome (Unit {0})
validate_text text =
    let text_len = length text in
    if ltb 4096 text_len then raise (text_length_incorrect text text_len) else ok tt

-- The code's bound is 521, where its comment says 512.
unfoldable pub validate_topic : Topic → Outcome (Unit {0})
validate_topic topic =
    let topic_len = chars_count topic in
    if ltb 521 topic_len then raise (topic_length_incorrect topic topic_len) else ok tt

-- The bytes of "name".
abbrev pub name_key : List ℕ
name_key = 110 ∷ 97 ∷ 109 ∷ 101 ∷ []

-- `UserInfo::name`
unfoldable pub user_name : List ℕ → Outcome UserInfo
user_name name =
    let name_len = chars_count name in
    if not (leb 1 name_len && leb name_len 32)
    then raise (username_length_incorrect name name_len)
    else ok (record { key = name_key; val = name })
