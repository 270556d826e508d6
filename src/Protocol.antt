-- ===== src/Protocol.antt =====
-- ProtocolHandler.h: what the two protocol handlers have in common. A handler's
-- method is an action on the handler's state, which holds the list of what the process did outside.
use ipk.Common.{ℕ, Bool, List, Bytes}

-- `ProtocolHandler::ClientState`
pub data ClientState : Type 0 where
  waiting_for_confirmation waiting_for_reply ready_for_input over : ClientState

-- What the process does outside: a `send` or `sendto` call, with the bytes and the port and address
-- that they go to (0 for the connected socket of TCP), a line on a stream, or a `close`.
pub data Effect : Type 0 where
  sent : ℕ → Bytes → Effect
  cout cerr : Bytes → Effect
  closed : Effect

-- What was done, the last effect first.
abbrev pub Log : Type 0
Log = List Effect

-- Whether the next `send` of these bytes succeeds, after what was done. The operating system
-- answers, so that this is a parameter of the model. A failure is a result of -1: a `send` on a broken
-- TCP connection may raise SIGPIPE instead, which ends the process in the call, and is not one of them.
abbrev pub Network : Type 0
Network = Log → Bytes → Bool

-- How a method ends: it returns, the process exits with EXIT_FAILURE, or the program's behaviour
-- is undefined (no `return` is reached, or an element that is not there is read).
pub data Run (S A : Type 0) : Type 0 where
  returns : A → S → Run S A
  exits : S → Run S A
  undefined : Run S A

infixl 5 ◌>>=◌ ◌>>◌
abbrev pub ◌>>=◌ : {S A B : Type 0} → (S → Run S A) → (A → S → Run S B) → S → Run S B
◌>>=◌ m f s = elim (m s) [ returns a t ↦ f a t | exits t ↦ exits t | undefined ↦ undefined ]

abbrev pub ◌>>◌ : {S B : Type 0} → (S → Run S (Unit {0})) → (S → Run S B) → S → Run S B
m >> k = m >>= λ _. k

abbrev pub return : {S A : Type 0} → A → S → Run S A
return a s = returns a s

-- The end of a method that is reached with no `return`.
abbrev pub no_return : {S A : Type 0} → S → Run S A
no_return s = undefined
