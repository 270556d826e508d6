-- ===== src/Grammar.antt =====
-- TCPMessageValidator.cpp, lines 20 to 92: `split_message` and the four checks of the fields.
-- UDPMessageValidator.cpp has its own (Udp/Fields), made of the same loops.
pub mod Split
pub mod Accepts
pub mod Credentials
use ipk.Common.{
  ℕ, Bool, true, false, not, ◌||◌, List, [], ◌∷◌, ◌++◌, ltb, ◌==◌, if◌then◌else◌, Bytes, length,
}
use ipk.Text.{is_alnum, is_print}

-- The loop of `split_message`, over the rest of the message, with `result` and `word`.
unfoldable pub split_from : Bytes → List Bytes → Bytes → List Bytes
split_from [] result word = result ++ word ∷ []
split_from (c ∷ message) result word = elim (c == b' ') [
  | true ↦ split_from message (result ++ word ∷ []) []
  | false ↦ split_from message result (word ++ c ∷ [])
]

unfoldable pub split_message : Bytes → List Bytes
unfolding split_from
split_message message = split_from message [] []

-- The loop of a check: no character is refused.
unfoldable pub all_chars : (ℕ → Bool) → Bytes → Bool
all_chars p [] = true
all_chars p (c ∷ s) = if not (p c) then false else all_chars p s

abbrev pub id_char : ℕ → Bool
id_char c = is_alnum c || c == b'-'

abbrev pub content_char : ℕ → Bool
content_char c = is_print c || c == b' '

abbrev pub size_refused : ℕ → Bytes → Bool
size_refused most s = ltb (length s) 1 || ltb most (length s)

unfoldable pub validate_id : Bytes → Bool
validate_id id = if size_refused 20 id then false else all_chars id_char id

unfoldable pub validate_secret : Bytes → Bool
validate_secret secret = if size_refused 128 secret then false else all_chars id_char secret

unfoldable pub validate_content : Bytes → Bool
validate_content content =
    if size_refused 1400 content then false else all_chars content_char content

unfoldable pub validate_dname : Bytes → Bool
validate_dname daname = if size_refused 20 daname then false else all_chars is_print daname
