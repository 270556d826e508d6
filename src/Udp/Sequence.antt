-- ===== src/Udp/Sequence.antt =====
-- The ids that a client gives to its datagrams: a sender that numbers what is new and repeats the last.
use ipk.Common.{ℕ, ◌<◌, ◌+◌, ◌%◌, [], ◌∷◌, ◌≡◌, ◌≢◌, arith, Bytes, get_or}
use ipk.Protocol.{Effect, sent, Log}
use ipk.Udp.Received.{message_id}

-- Not sent, or a CONFIRM, which has the id of what it confirms.
abbrev pub Aside : Effect → Type 0
Aside (sent address m) = get_or m 0 1 ≡ 0
Aside _ = Unit

-- A datagram of the client's own, with this id.
abbrev pub Numbered : ℕ → Bytes → Type 0
Numbered n m = (message_id m ≡ n) × (get_or m 0 0 ≢ 0)

-- The abstract sender: the next id, the last datagram of its own, and what it has done, the latest
-- first. It may repeat the last datagram, and a new one has the next id, which is then one more,
-- modulo 65536.
pub data Sequenced : ℕ → Bytes → Log → Type 0 where
  silent : Sequenced 0 [] []
  aside :
      {n : ℕ} {last : Bytes} {log : Log} {e : Effect}
      → Aside e
      → Sequenced n last log
      → Sequenced n last (e ∷ log)
  again :
      {n : ℕ} {last : Bytes} {log : Log} (address : ℕ)
      → Sequenced n last log
      → Sequenced n last (sent address last ∷ log)
  fresh :
      {n : ℕ} {last : Bytes} {log : Log} (address : ℕ) (m : Bytes)
      → Numbered n m
      → Sequenced n last log
      → Sequenced ((n + 1) % 65536) m (sent address m ∷ log)

pub Sequenced-lt : {n : ℕ} {last : Bytes} {log : Log} → Sequenced n last log → n < 65536
Sequenced-lt silent = omega arith
Sequenced-lt (aside a s) = Sequenced-lt s
Sequenced-lt (again address s) = Sequenced-lt s
Sequenced-lt (fresh address m i s) = omega arith
