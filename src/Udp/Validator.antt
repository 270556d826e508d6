-- ===== src/Udp/Validator.antt =====
-- UDPMessageValidator.cpp. The only state of the class is `displayName`; a method that stores it
-- returns the new name too. The checks of the fields and `split_message` are in Fields.
use ipk.Common.{
  ℕ, ◌/◌, ◌%◌, Bool, true, false, not, ◌||◌, List, [], ◌∷◌, ◌++◌, ◌==◌, if◌then◌else◌, Bytes, lit,
  length, get_or,
}
use ipk.Udp.Fields.{validate_id, validate_secret, validate_content, validate_dname}

-- The code and the message id, big endian.
abbrev pub header : ℕ → ℕ → Bytes → Bytes
header code id rest = code ∷ id / 256 % 256 ∷ id % 256 ∷ rest

-- A text and its null terminator.
abbrev pub field : Bytes → Bytes → Bytes
field text rest = text ++ (0 ∷ rest)

unfoldable pub form_bye_message : ℕ → Bytes
form_bye_message id = header 0xff id []

unfoldable pub form_error_message : ℕ → Bytes → Bytes → Bytes
form_error_message id dname error = header 0xfe id (field dname (field error []))

unfoldable pub rename : Bytes → Bytes → Bool × Bytes
rename display_name name = if validate_dname name then (true, name) else (false, display_name)

-- The bytes and the result, and then the display name that is left.
unfoldable pub authorize_validate : Bytes → ℕ → ℕ → Bytes → Bytes → Bytes → (Bytes × Bool) × Bytes
authorize_validate display_name code id username deename secret =
    if not (validate_id username) || not (validate_dname deename) || not (validate_secret secret)
    then ((lit "ERROR Invalid username, display name or secret", false), display_name)
    else ((header code id (field username (field deename (field secret []))), true), deename)

unfoldable pub join_validate : Bytes → ℕ → ℕ → Bytes → Bytes × Bool
join_validate display_name code id channel =
    if not (validate_id channel)
    then (lit "ERROR Invalid channel or display name while joining", false)
    else (header code id (field channel (field display_name [])), true)

unfoldable pub message_validate : Bytes → ℕ → ℕ → Bytes → Bytes × Bool
message_validate display_name code id content =
    if not (validate_content content)
    then (lit "ERROR Invalid content", false)
    else (header code id (field display_name (field content [])), true)

-- The texts that the callers of `parse_and_validate` give as `type`, and any other.
pub data MessageType : Type 0 where
  reply msg err other : MessageType

-- The loop over the bytes, with `result` and `word`. A word with no terminator is dropped.
unfoldable pub words_from : Bytes → List Bytes → Bytes → List Bytes
words_from [] result word = result
words_from (c ∷ message) result word = elim (c == 0) [
  | true ↦ words_from message (result ++ word ∷ []) []
  | false ↦ words_from message result (word ++ c ∷ [])
]

abbrev invalid : List Bytes × Bool
invalid = (lit "Invalid Arguments Provided" ∷ [], false)

-- A name and a content.
abbrev named : List Bytes → List Bytes × Bool
named result =
    if not (length result == 2)
    then invalid
    else if not (validate_dname (get_or result 0 [])) || not (validate_content (get_or result 1 []))
    then invalid
    else (result, true)

unfoldable pub parse_and_validate : Bytes → MessageType → List Bytes × Bool
parse_and_validate message reply =
    let result = words_from message [] [] in
    if not (length result == 1)
    then invalid
    else if not (validate_content (get_or result 0 []))
    then invalid
    else (result, true)
parse_and_validate message msg = named (words_from message [] [])
parse_and_validate message err = named (words_from message [] [])
parse_and_validate message other = invalid
