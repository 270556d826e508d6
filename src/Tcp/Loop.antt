-- ===== src/Tcp/Loop.antt =====
-- The event loop with the TCP handler, over any returns of `poll`, beside the sessions of the object.
use ipk.Common.{
  ℕ, zero, suc, false, [], ◌++◌, Option, none, some, ◌≡◌, refl, ◌+◌, Bytes, length, take, drop,
}
use ipk.Text.{find_crlf}
use ipk.Protocol.{
  ClientState, ready_for_input, waiting_for_reply, waiting_for_confirmation, over, Network, Run,
  returns, exits, undefined,
}
use ipk.Stream.{is_over}
use ipk.Stream.Methods.{CallKeeps, Methods}
use ipk.Tcp.Handler.{Tcp, process_user_input}
use ipk.Tcp.Receive.{proceed, drain, process_server_message}
use ipk.Tcp.Received.{process_received}
use ipk.Tcp.Framing.{drain_buffer-total}
use ipk.Tcp.Session.{
  Mishap, undefined-Mishap, Input, line, message, failure, end_of_stream, input, Reached, next,
  InSession, ongoing, ended,
}
use ipk.Tcp.Client.{Client, Last, calls_of, returned, beside, resend_last_message, tcp_handler}
use ipk.Tcp.Client

module _ (net : Network) where
  -- What a call has come to, with the buffer beside the object.
  abbrev Within : Run Client ClientState → Type 0
  Within (returns c (buffer, t)) = InSession net c t
  Within (exits c) = Unit
  Within undefined = Mishap net

  abbrev DrainWithin : Option (Run Client ClientState) → Type 0
  DrainWithin none = Unit
  DrainWithin (some r) = Within r

  stepped :
      {s t : Tcp} (i : Input) (c : ClientState)
      → Reached net s
      → input net i s ≡ returns c t
      → InSession net c t
  stepped i over r e = ended i r e
  stepped i ready_for_input r e = ongoing ready_for_input (next i r e (λ x. cc x))
  stepped i waiting_for_reply r e = ongoing waiting_for_reply (next i r e (λ x. cc x))
  stepped i waiting_for_confirmation r e = ongoing waiting_for_confirmation (next i r e (λ x. cc x))

  pub InSession-Reached :
      {s : Tcp} (c : ClientState) → is_over c ≡ false → InSession net c s → Reached net s
  InSession-Reached c e (ongoing _ r) = r
  InSession-Reached c e (ended i r x) = cc e

  proceed-DrainWithin :
      (again : Tcp → Option (Run Client ClientState)) (rest m : Bytes) {s : Tcp}
      → Reached net s
      → ((t : Tcp) → Reached net t → DrainWithin (again t))
      → (r : Run Tcp ClientState) → process_received net m s ≡ r
      → DrainWithin (proceed again rest r)
  unfolding proceed input
  proceed-DrainWithin again rest m h k (returns ready_for_input t) e =
      k t (next (message m) h e (λ x. cc x))
  proceed-DrainWithin again rest m h k (returns c t) e = stepped (message m) c h e
  proceed-DrainWithin again rest m h k (exits t) e = tt
  proceed-DrainWithin again rest m h k undefined e = undefined-Mishap net (message m) h e

  drain-DrainWithin :
      (fuel : ℕ) (buffer : Bytes) (s : Tcp)
      → Reached net s
      → DrainWithin (drain (process_received net) fuel buffer s)
  unfolding drain
  drain-DrainWithin zero buffer s h = tt
  drain-DrainWithin (suc fuel) buffer s h =
      go (λ b t k. drain-DrainWithin fuel b t k) (find_crlf buffer)
    where
      go :
          ((b : Bytes) (t : Tcp)
            → Reached net t
            → DrainWithin (drain (process_received net) fuel b t))
          → (o : Option ℕ)
          → DrainWithin (elim o [
            | none ↦ some (returns ready_for_input (buffer, s))
            | some pos ↦
                let m = take pos buffer in
                let rest = drop (pos + 2) buffer in
                proceed (drain (process_received net) fuel rest) rest (process_received net m s)
          ])
      go ih none = ongoing ready_for_input h
      go ih (some pos) = proceed-DrainWithin _ _ _ h (ih _) _ refl

  -- Any results of `recv`.
  calls-Within :
      (n : ℕ) (last : Last) (buffer : Bytes) (s : Tcp)
      → Reached net s
      → Within (returned (process_server_message net (calls_of n last) (buffer, s)))
  unfolding process_server_message input
  calls-Within zero Client.at_end buffer s h = ended end_of_stream h refl
  calls-Within zero (Client.bytes b) buffer s h =
      go (drain (process_received net) (suc (length (buffer ++ b))) (buffer ++ b) s)
        (drain-DrainWithin _ (buffer ++ b) s h)
        (drain_buffer-total (process_received net) (buffer ++ b) s).1
    where
      go :
          (o : Option (Run Client ClientState))
          → DrainWithin o
          → {r : Run Client ClientState} → o ≡ some r
          → Within (returned (elim o [ none ↦ none | some r ↦ some (r, []) ]))
      go none k e = cc e
      go (some r) k e = k
  calls-Within (suc n) last buffer s h =
      calls-Within n last buffer _ (next failure h refl (λ x. cc x))

  beside-Within :
      (buffer m : Bytes) {s : Tcp}
      → Reached net s
      → (r : Run Tcp ClientState) → process_user_input net m s ≡ r
      → Within (beside buffer r)
  unfolding input
  beside-Within buffer m h (returns c t) e = stepped (line m) c h e
  beside-Within buffer m h (exits t) e = tt
  beside-Within buffer m h undefined e = undefined-Mishap net (line m) h e

  Within-CallKeeps :
      (r : Run Client ClientState)
      → Within r
      → CallKeeps (tcp_handler net) (λ c client. InSession net c client.1) (Mishap net) r
  Within-CallKeeps (returns c client) h = h
  Within-CallKeeps (exits client) h = tt
  Within-CallKeeps undefined h = h

  -- Every call of the loop is an input of a session, or several inputs.
  pub sessions :
      Methods
        (tcp_handler net)
        (λ c client. InSession net c client.1)
        (Mishap net)
        (λ _. Unit)
        (λ _. Unit)
  unfolding resend_last_message
  sessions = record {
    on_server = λ c i client o _ h.
        Within-CallKeeps _
          (calls-Within i.failures i.last client.0 client.1 (InSession-Reached c o h));
    on_user = λ c m client o _ _ h.
        Within-CallKeeps _ (beside-Within client.0 m (InSession-Reached c o h) _ refl);
    on_exit = λ c client o h.
        Within-CallKeeps _ (beside-Within client.0 _ (InSession-Reached c o h) _ refl);
    on_timeout = λ client h. h;
    on_give_up = λ client h. ongoing over (InSession-Reached waiting_for_confirmation refl h);
  }
