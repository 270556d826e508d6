-- ===== src/Tcp/Validator.antt =====
-- TCPMessageValidator.cpp. The only state of the class is `displayName`; a method that stores it
-- returns the new name too. A pair of a text and a Boolean is the C++ one. `none` is undefined
-- behaviour: `pop_back` on an empty string.
use ipk.Common.{
  ℕ, Bool, true, false, not, ◌&&◌, ◌||◌, List, [], ◌∷◌, ◌++◌, Option, none, some, ltb, ◌==◌,
  if◌then◌else◌, Bytes, lit, bytes_eq, length, get_or, drop,
}
use ipk.Text.{upper, pop_back}
use ipk.Grammar.{split_message, validate_id, validate_secret, validate_content, validate_dname}

-- "\r\n"
abbrev pub crlf : Bytes
crlf = 13 ∷ 10 ∷ []

-- `parts[i]`, where the size of `parts` was checked.
abbrev pub part : List Bytes → ℕ → Bytes
part parts i = get_or parts i []

unfoldable pub form_error_message : Bytes → Bytes → Bytes
form_error_message display_name message =
    lit "ERR FROM " ++ (display_name ++ (lit " IS " ++ (message ++ crlf)))

unfoldable pub form_bye_message : Bytes
form_bye_message = lit "BYE" ++ crlf

-- The text and the result, and then the display name that is left.
unfoldable pub authorize_validate : Bytes → Bytes → (Bytes × Bool) × Bytes
authorize_validate display_name message =
    let parts = split_message message in
    if not (length parts == 3)
    then ((lit "Invalid message format", false), display_name)
    else if not (validate_id (part parts 0))
    then ((lit "Invalid ID format", false), display_name)
    else if not (validate_secret (part parts 1))
    then ((lit "Invalid secret format", false), display_name)
    else if not (validate_dname (part parts 2))
    then ((lit "Invalid display name format", false), display_name)
    else (
      (
        lit "AUTH "
            ++ (part parts 0
                ++ (lit " AS " ++ (part parts 2 ++ (lit " USING " ++ (part parts 1 ++ crlf))))),
        true,
      ),
      part parts 2,
    )

unfoldable pub join_validate : Bytes → Bytes → Bytes × Bool
join_validate display_name message =
    let parts = split_message message in
    if not (length parts == 1)
    then (lit "Invalid message format", false)
    else if not (validate_id (part parts 0))
    then (lit "Invalid ID format", false)
    else (lit "JOIN " ++ (part parts 0 ++ (lit " AS " ++ (display_name ++ crlf))), true)

unfoldable pub message_validate : Bytes → Bytes → Bytes × Bool
message_validate display_name message =
    if not (validate_content message)
    then (lit "Invalid content format", false)
    else (lit "MSG FROM " ++ (display_name ++ (lit " IS " ++ (message ++ crlf))), true)

-- The result, and the display name that is left.
unfoldable pub rename : Bytes → Bytes → Bool × Bytes
rename display_name daname =
    if not (validate_dname daname) then (false, display_name) else (true, daname)

-- `content += parts[i] + " "` for each of these parts.
unfoldable pub glue : List Bytes → Bytes
glue [] = []
glue (p ∷ parts) = p ++ (b' ' ∷ glue parts)

-- The glued parts with the last space removed.
unfoldable pub content_of : List Bytes → Option Bytes
content_of parts = pop_back (glue parts)

unfoldable pub validate_reply : Bytes → Option (Bytes × Bool)
validate_reply message =
    let parts = split_message message in
    if ltb (length parts) 3
    then some (lit "Invalid Reply Message Format", false)
    else if not (bytes_eq (upper (part parts 0)) (lit "REPLY"))
        || (not (bytes_eq (upper (part parts 1)) (lit "OK"))
            && not (bytes_eq (upper (part parts 1)) (lit "NOK")))
        || not (bytes_eq (upper (part parts 2)) (lit "IS"))
    then some (lit "Invalid Reply Message Format", false)
    else elim (content_of (drop 3 parts)) [
      | none ↦ none
      | some content ↦ some (content, validate_content content)
    ]

-- The content, the name and the result. The name is checked in upper case and returned as it came.
unfoldable pub validate_message_server : Bytes → Bytes → Option ((Bytes × Bytes) × Bool)
validate_message_server display_name message =
    let parts = split_message message in
    if ltb (length parts) 5
    then some ((lit "Invalid MSG Format", display_name), false)
    else if not (bytes_eq (upper (part parts 0)) (lit "MSG"))
        || not (bytes_eq (upper (part parts 1)) (lit "FROM"))
        || not (bytes_eq (upper (part parts 3)) (lit "IS"))
    then some ((lit "Invalid MSG Format", display_name), false)
    else if not (validate_dname (upper (part parts 2)))
    then some ((lit "Invalid Username Format Received", display_name), false)
    else elim (content_of (drop 4 parts)) [
      | none ↦ none
      | some content ↦ some ((content, part parts 2), validate_content content)
    ]

unfoldable pub validate_error_server : Bytes → Option ((Bytes × Bytes) × Bool)
validate_error_server message =
    let parts = split_message message in
    if ltb (length parts) 5
    then some ((lit "Invalid ERR Format", lit " "), false)
    else if not (bytes_eq (upper (part parts 0)) (lit "ERR"))
        || not (bytes_eq (upper (part parts 1)) (lit "FROM"))
        || not (bytes_eq (upper (part parts 3)) (lit "IS"))
    then some ((lit "Invalid ERR Format", lit " "), false)
    else if not (validate_dname (part parts 2))
    then some ((lit "Invalid Username Format Received", lit " "), false)
    else elim (content_of (drop 4 parts)) [
      | none ↦ none
      | some content ↦ some ((content, part parts 2), validate_content content)
    ]

unfoldable pub validate_bye_server : Bytes → Bool
validate_bye_server message =
    if not (length (split_message message) == 1)
    then false
    else if not (bytes_eq message (lit "BYE"))
    then false
    else true
