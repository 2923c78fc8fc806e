-- ===== src/Cable/Constants.antt =====
-- cable/src/constants.rs: the numbers that stand for post and message types on the wire.
use cable_rs.Base.{ℕ, List, [], ◌∷◌}

abbrev pub text_post : ℕ
text_post = 0

abbrev pub delete_post : ℕ
delete_post = 1

abbrev pub info_post : ℕ
info_post = 2

abbrev pub topic_post : ℕ
topic_post = 3

abbrev pub join_post : ℕ
join_post = 4

abbrev pub leave_post : ℕ
leave_post = 5

abbrev pub hash_response : ℕ
hash_response = 0

abbrev pub post_response : ℕ
post_response = 1

abbrev pub channel_list_response : ℕ
channel_list_response = 7

abbrev pub post_request : ℕ
post_request = 2

abbrev pub cancel_request : ℕ
cancel_request = 3

abbrev pub channel_time_range_request : ℕ
channel_time_range_request = 4

abbrev pub channel_state_request : ℕ
channel_state_request = 5

abbrev pub channel_list_request : ℕ
channel_list_request = 6

abbrev pub no_circuit : List ℕ
no_circuit = 0 ∷ 0 ∷ 0 ∷ 0 ∷ []
