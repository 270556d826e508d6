-- ===== src/Tcp/Heard.antt =====
-- The event loop with the TCP handler beside the inputs of its session, and what they come from.
use ipk.Common.{
  ℕ, zero, suc, false, ◌+◌, List, [], ◌∷◌, ◌++◌, Option, none, some, ◌≡◌, ◌≢◌, refl, Bytes, length,
  take, drop, All, lit,
}
use mathlib.Core.Path.{subst}
use ipk.Text.{find_crlf}
use ipk.Protocol.{
  ClientState, ready_for_input, waiting_for_reply, waiting_for_confirmation, over, Network, Run,
  returns, exits, undefined,
}
use ipk.Stream.{is_over}
use ipk.Stream.Methods.{CallKeeps, Methods}
use ipk.Tcp.Handler.{Tcp, process_user_input}
use ipk.Tcp.Receive.{proceed, drain, process_server_message}
use ipk.Tcp.Received.{process_received}
use ipk.Tcp.Session.{Input, line, message, failure, end_of_stream, input}
use ipk.Tcp.Authorized.{Played, continued, Comes, on, off}
use ipk.Tcp.Client.{
  Client, Incoming, Last, calls_of, returned, beside, resend_last_message, tcp_handler,
}
use ipk.Tcp.Client

-- `From` is what the inputs come from, and `Holds` what the buffer is filled from.
module _ (net : Network) (From : Input → Type 0) (Holds : Bytes → Type 0) where
  -- What a call returns and the state that it leaves, with the inputs that led there.
  pub data Goes : ClientState → Tcp → Type 0 where
    going : {is : List Input} {s : Tcp} (c : ClientState) → Played net is s → All From is → Goes c s
    gone :
        {is : List Input} {s t : Tcp} (i : Input)
        → Played net is s
        → All From (i ∷ is)
        → input net i s ≡ returns over t
        → Goes over t

  pub Goes-Comes :
      {c : ClientState} {s : Tcp} → Goes c s → (is : List Input) × (Comes net is s × All From is)
  Goes-Comes (going {is} c p f) = (is, (on p, f))
  Goes-Comes (gone {is} i p f e) = (i ∷ is, (off i p e, f))

  -- A session that goes on.
  abbrev Ready : Tcp → Type 0
  Ready s = (is : List Input) × (Played net is s × All From is)

  Goes-Ready : {s : Tcp} (c : ClientState) → is_over c ≡ false → Goes c s → Ready s
  Goes-Ready c e (going {is} _ p f) = (is, (p, f))
  Goes-Ready c e (gone i p f x) = cc e

  abbrev Within : Run Client ClientState → Type 0
  Within (returns c (buffer, t)) = Goes c t × Holds buffer
  Within (exits c) = Unit
  Within undefined = Unit

  abbrev DrainWithin : Option (Run Client ClientState) → Type 0
  DrainWithin none = Unit
  DrainWithin (some r) = Within r

  further :
      {s t : Tcp} {c : ClientState} (i : Input)
      → Ready s
      → From i
      → input net i s ≡ returns c t
      → c ≢ over
      → Ready t
  further i (is, (p, f)) a e n = (i ∷ is, (continued i p e n, (a, f)))

  Ready-Goes : {s : Tcp} (c : ClientState) → Ready s → Goes c s
  Ready-Goes c (is, (p, f)) = going c p f

  stepped :
      {s t : Tcp} (i : Input) (c : ClientState)
      → Ready s
      → From i
      → input net i s ≡ returns c t
      → Goes c t
  stepped i over (is, (p, f)) a e = gone i p (a, f) e
  stepped i ready_for_input r a e = Ready-Goes ready_for_input (further i r a e (λ x. cc x))
  stepped i waiting_for_reply r a e = Ready-Goes waiting_for_reply (further i r a e (λ x. cc x))
  stepped i waiting_for_confirmation r a e =
      Ready-Goes waiting_for_confirmation (further i r a e (λ x. cc x))

  proceed-DrainWithin :
      (again : Tcp → Option (Run Client ClientState)) (rest m : Bytes) {s : Tcp}
      → Ready s
      → From (message m)
      → Holds rest
      → ((t : Tcp) → Ready t → DrainWithin (again t))
      → (r : Run Tcp ClientState) → process_received net m s ≡ r
      → DrainWithin (proceed again rest r)
  unfolding proceed input
  proceed-DrainWithin again rest m h a b k (returns ready_for_input t) e =
      k t (further (message m) h a e (λ x. cc x))
  proceed-DrainWithin again rest m h a b k (returns c t) e = (stepped (message m) c h a e, b)
  proceed-DrainWithin again rest m h a b k (exits t) e = tt
  proceed-DrainWithin again rest m h a b k undefined e = tt

  beside-Within :
      (buffer m : Bytes) {s : Tcp}
      → Ready s
      → From (line m)
      → Holds buffer
      → (r : Run Tcp ClientState) → process_user_input net m s ≡ r
      → Within (beside buffer r)
  unfolding input
  beside-Within buffer m h a b (returns c t) e = (stepped (line m) c h a e, b)
  beside-Within buffer m h a b (exits t) e = tt
  beside-Within buffer m h a b undefined e = tt

  Within-CallKeeps :
      (r : Run Client ClientState)
      → Within r
      → CallKeeps (tcp_handler net) (λ c client. Goes c client.1 × Holds client.0) Unit r
  Within-CallKeeps (returns c client) h = h
  Within-CallKeeps (exits client) h = tt
  Within-CallKeeps undefined h = h

  -- How the buffer gives messages, and grows.
  module _
      (taken : (buffer : Bytes) (pos : ℕ)
        → Holds buffer
        → find_crlf buffer ≡ some pos
        → From (message (take pos buffer)) × Holds (drop (pos + 2) buffer))
      (L : Bytes → Type 0) (S : Incoming → Type 0)
      (grown : (n : ℕ) (b buffer : Bytes)
        → S (record { failures = n; last = Last.bytes b })
        → Holds buffer
        → Holds (buffer ++ b))
      (typed : (m : Bytes) → L m → From (line m)) (exit : From (line (lit "/exit")))
      (failed : From failure) (closed : From end_of_stream) where
    drain-DrainWithin :
        (fuel : ℕ) (buffer : Bytes) (s : Tcp)
        → Ready s
        → Holds buffer
        → DrainWithin (drain (process_received net) fuel buffer s)
    unfolding drain
    drain-DrainWithin zero buffer s h b = tt
    drain-DrainWithin (suc fuel) buffer s h b =
        go (λ rest t k g. drain-DrainWithin fuel rest t k g) (find_crlf buffer) refl
      where
        go :
            ((rest : Bytes) (t : Tcp)
              → Ready t
              → Holds rest
              → DrainWithin (drain (process_received net) fuel rest t))
            → (o : Option ℕ) → find_crlf buffer ≡ o
            → DrainWithin (elim o [
              | none ↦ some (returns ready_for_input (buffer, s))
              | some pos ↦
                  let m = take pos buffer in
                  let rest = drop (pos + 2) buffer in
                  proceed (drain (process_received net) fuel rest) rest (process_received net m s)
            ])
        go ih none e = (Ready-Goes ready_for_input h, b)
        go ih (some pos) e =
            let (a, g) = taken buffer pos b e in
            proceed-DrainWithin _ _ _ h a g (λ t k. ih _ t k g) _ refl

    calls-Within :
        (n : ℕ) (last : Last) (buffer : Bytes) (s : Tcp)
        → Ready s
        → Holds buffer
        → ((b : Bytes) → last ≡ Last.bytes b → Holds (buffer ++ b))
        → Within (returned (process_server_message net (calls_of n last) (buffer, s)))
    unfolding process_server_message input
    calls-Within zero Client.at_end buffer s h b g = (stepped end_of_stream over h closed refl, b)
    calls-Within zero (Client.bytes b') buffer s h b g =
        go (drain (process_received net) (suc (length (buffer ++ b'))) (buffer ++ b') s)
          (drain-DrainWithin _ (buffer ++ b') s h (g b' refl))
      where
        go :
            (o : Option (Run Client ClientState))
            → DrainWithin o
            → Within (returned (elim o [ none ↦ none | some r ↦ some (r, []) ]))
        go none k = tt
        go (some r) k = k
    calls-Within (suc n) last buffer s h b g =
        calls-Within n last buffer _ (further failure h failed refl (λ x. cc x)) b g

    pub tracked : Methods (tcp_handler net) (λ c client. Goes c client.1 × Holds client.0) Unit L S
    unfolding resend_last_message
    tracked = record {
      on_server = λ c i client o a h. Within-CallKeeps _ (
          calls-Within i.failures i.last client.0 client.1 (Goes-Ready c o h.0) h.1 (λ b e.
            grown i.failures b client.0
              (subst (λ x. S (record { failures = i.failures; last = x })) e a) h.1));
      on_user = λ c m client o _ a h.
          Within-CallKeeps _ (beside-Within client.0 m (Goes-Ready c o h.0) (typed m a) h.1 _ refl);
      on_exit = λ c client o h.
          Within-CallKeeps _ (beside-Within client.0 _ (Goes-Ready c o h.0) exit h.1 _ refl);
      on_timeout = λ client h. h;
      on_give_up =
          λ client h. (Ready-Goes over (Goes-Ready waiting_for_confirmation refl h.0), h.1);
    }
