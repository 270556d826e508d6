-- ===== src/Tests/Logins.antt =====
-- Histories of the two clients: a login, and what is sent after it.
use ipk.Common.{true, List, [], ◌∷◌, some, refl, arith, lit, bytes_eq, ◌∙◌, All, Bytes}
use ipk.Text.{find, before, to_upper}
use ipk.Grammar.{split_message}
use ipk.Grammar.Split.{three_words}
use ipk.Commands.{auth_line}
use ipk.Fsm.{any, start, auth, opened, initial}
use ipk.Fsm.Invariant.{fsm}
use ipk.Protocol.{Network}
use ipk.Tcp.Handler.{Tcp, new_tcp}
use ipk.Tcp.Login.{ok_line, login_opens}
use ipk.Tcp.Login as TcpLogin
use ipk.Tcp.Session.{Input, line, message, input}
use ipk.Tcp.Retries.{Attempt, WellFormed, refusals, logged_in, typed, retried_login}
use ipk.Tcp.Authorized.{LoggedIn, Played, started, continued, SendsAfter, chats_after_login}
use ipk.Udp.Handler.{Udp, new_udp}
use ipk.Udp.Fields.Same.{content_same}
use ipk.Udp.Login.{ok_datagram, udp_login_opens}
use ipk.Udp.Login as UdpLogin
use ipk.Udp.Received.{datagram}
use ipk.Udp.Session as UdpSession
use ipk.Udp.Validator.{header}
use ipk.Udp.Wire.{SendsWireOf}
use ipk.Udp.Authorized.{udp_chats_after_login}
use ipk.Udp.Authorized as UdpAuthorized
use ipk.Tests.Fields.{ann, text, text-valid, credentials}

abbrev net : Network
net _ _ = true

abbrev words : Bytes
words = three_words (lit "ab") (lit "s") ann

-- The last input first.
abbrev history : List Input
history = message (ok_line text) ∷ line (auth_line words) ∷ []

abbrev asked : Tcp
asked = TcpLogin.asked (lit "ab") (lit "s") ann (fsm auth (some start) (any ∷ [])) new_tcp

abbrev granted : Tcp
granted = TcpLogin.granted text (fsm opened (some auth) (any ∷ [])) asked

logged_in-Played : Played net history granted
unfolding input new_tcp initial
logged_in-Played =
    let (first, second) = login_opens net text new_tcp credentials text-valid refl refl refl in
    continued (message (ok_line text)) (continued (line (auth_line words)) started first (λ e. cc))
      second (λ e. cc)

history-LoggedIn : LoggedIn history
unfolding bytes_eq lit find before to_upper split_message
history-LoggedIn = refl

chats_after_login_example :
    SendsAfter (LoggedIn (line text ∷ history)) (input net (line text) granted)
chats_after_login_example = chats_after_login net (line text) logged_in-Played

-- An attempt that the server refuses twice.
abbrev attempt : Attempt
attempt = record { id = lit "ab"; secret = lit "s"; name = ann; text = text }

attempt-WellFormed : WellFormed attempt
attempt-WellFormed = record { credentials = credentials; text_valid = text-valid }

retried_login_example :
    Played net
      (message (ok_line text) ∷ typed attempt ∷ refusals (attempt ∷ attempt ∷ []))
      (logged_in attempt (attempt ∷ attempt ∷ []))
retried_login_example =
    retried_login net (attempt ∷ attempt ∷ []) attempt
      (attempt-WellFormed, (attempt-WellFormed, tt)) attempt-WellFormed (λ _ _. refl)

-- Over UDP, the confirmation of AUTH between the two.
abbrev datagrams : List UdpSession.Input
datagrams =
    UdpSession.socket (datagram 9 (ok_datagram 5 0 text))
    ∷ UdpSession.socket (datagram 9 (header 0 0 []))
    ∷ UdpSession.line (auth_line words)
    ∷ []

abbrev sender : Udp
sender = UdpLogin.asked net (lit "ab") (lit "s") ann (fsm auth (some start) (any ∷ [])) (new_udp 7)

abbrev waiting : Udp
waiting = UdpLogin.confirmed_request net 9 sender

abbrev welcome : Udp
welcome = UdpLogin.granted net 9 5 text (fsm opened (some auth) (any ∷ [])) waiting

welcome-Played : UdpAuthorized.Played net 7 datagrams welcome
unfolding UdpSession.input new_udp initial
welcome-Played =
    let (first, second, third) =
      udp_login_opens net 9 9 5 text (new_udp 7) credentials (content_same text ∙ text-valid)
        (omega arith) (omega arith) refl refl refl refl refl in
    UdpAuthorized.continued {s = waiting} _
      (UdpAuthorized.continued {s = sender} _
        (UdpAuthorized.continued {s = new_udp 7} _ UdpAuthorized.started
          (rw (first, UdpSession.input) refl))
        (rw (second, UdpSession.input) refl))
      (rw (third, UdpSession.input) refl)

udp_chats_after_login_example : All (SendsWireOf (UdpAuthorized.LoggedIn datagrams)) welcome.log
udp_chats_after_login_example = udp_chats_after_login net 7 welcome-Played
