-- ===== src/Udp/Fields.antt =====
-- UDPMessageValidator.cpp, lines 37 to 113: the class's own `split_message` and checks of the fields.
pub mod Same
use ipk.Common.{Bool, false, List, [], if◌then◌else◌, Bytes}
use ipk.Text.{is_print}
use ipk.Grammar.{split_from, size_refused, all_chars, id_char, content_char}

unfoldable pub split_message : Bytes → List Bytes
unfolding split_from
split_message message = split_from message [] []

unfoldable pub validate_id : Bytes → Bool
validate_id id = if size_refused 20 id then false else all_chars id_char id

unfoldable pub validate_secret : Bytes → Bool
validate_secret secret = if size_refused 128 secret then false else all_chars id_char secret

unfoldable pub validate_content : Bytes → Bool
validate_content content =
    if size_refused 1400 content then false else all_chars content_char content

unfoldable pub validate_dname : Bytes → Bool
validate_dname daname = if size_refused 20 daname then false else all_chars is_print daname
