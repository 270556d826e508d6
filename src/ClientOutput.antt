-- ===== src/ClientOutput.antt =====
-- ClientOutput.cpp: the lines that each method prints, as effects.
use ipk.Common.{◌∷◌, ◌++◌, Bytes, lit}
use ipk.Protocol.{Effect, cout, cerr, Log}

unfoldable pub message_from_server : Bytes → Bytes → Effect
message_from_server username message = cout (username ++ (lit ": " ++ message))

unfoldable pub internal_error_message : Bytes → Effect
internal_error_message message = cerr (lit "ERR: " ++ message)

unfoldable pub error_from_server : Bytes → Bytes → Effect
error_from_server username message = cerr (lit "ERR FROM " ++ (username ++ (lit ": " ++ message)))

unfoldable pub reply_success : Bytes → Effect
reply_success message = cerr (lit "Success: " ++ message)

unfoldable pub reply_error : Bytes → Effect
reply_error message = cerr (lit "Failure: " ++ message)

-- The last line first.
unfoldable pub print_help : Log → Log
print_help log =
    cout (lit "<message> - Send a message to the chat")
    ∷ cout (lit "/help - Print this help message")
    ∷ cout (lit "/rename <dname> - Change the display name")
    ∷ cout (lit "/join <id> - Join the chat")
    ∷ cout (lit "/auth <id> <secret> <dname> - Authorize the user")
    ∷ cout (lit "Available commands:")
    ∷ log
