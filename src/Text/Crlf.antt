-- ===== src/Text/Crlf.antt =====
-- Where "\r\n" is found.
use ipk.Common.{
  ℕ, zero, suc, ◌+◌, ◌≤◌, List, [], ◌∷◌, ◌++◌, none, some, inl, inr, ◌≡◌, refl, ap, ◌∙◌, arith,
  append_assoc, Bytes, length, take, drop, All, length-append, Option-cases,
}
use ipk.Text.{find_crlf}

-- No "\r\n" in the text.
abbrev pub Lacks : Bytes → Type 0
Lacks s = find_crlf s ≡ none

-- A text without "\r\n" ends at the first one behind it.
pub find_crlf-append :
    (m rest : Bytes) → Lacks m → find_crlf (m ++ (13 ∷ 10 ∷ rest)) ≡ some (length m)
unfolding find_crlf
find_crlf-append [] rest h = refl
find_crlf-append (c ∷ []) rest h = ground arith
find_crlf-append (c ∷ d ∷ m) rest h = ground (arith, find_crlf-append (d ∷ m) rest)

-- The text up to the place found has no "\r\n", which stands there.
pub find_crlf-some :
    (s : Bytes) (i : ℕ)
    → find_crlf s ≡ some i
    → Lacks (take i s) × (s ≡ take i s ++ (13 ∷ 10 ∷ drop (i + 2) s))
unfolding find_crlf
find_crlf-some [] i h = cc
find_crlf-some (c ∷ []) i h = cc
find_crlf-some (c ∷ d ∷ s) zero h = ground arith
find_crlf-some (c ∷ d ∷ s) (suc zero) h = ground (arith, find_crlf-some (d ∷ s) zero)
find_crlf-some (c ∷ d ∷ s) (suc (suc i)) h = ground (arith, find_crlf-some (d ∷ s) (suc i))

pub take-append_self : (m rest : Bytes) → take (length m) (m ++ rest) ≡ m
take-append_self [] rest = refl
take-append_self (c ∷ m) rest = ap (◌∷◌ c) (take-append_self m rest)

pub drop-append_crlf : (m rest : Bytes) → drop (length m + 2) (m ++ (13 ∷ 10 ∷ rest)) ≡ rest
drop-append_crlf [] rest = refl
drop-append_crlf (c ∷ m) rest = ground (arith, drop-append_crlf m rest)

-- Messages, each with "\r\n" behind it, and then a tail.
abbrev pub unframe : List Bytes → Bytes → Bytes
unframe [] tail = tail
unframe (m ∷ ms) tail = m ++ (13 ∷ 10 ∷ unframe ms tail)

pub unframe-append :
    (ms ns : List Bytes) (tail : Bytes) → unframe (ms ++ ns) tail ≡ unframe ms (unframe ns tail)
unframe-append [] ns tail = refl
unframe-append (m ∷ ms) ns tail = rw (unframe-append ms ns tail)

pub unframe_tail :
    (ms : List Bytes) (tail more : Bytes) → unframe ms tail ++ more ≡ unframe ms (tail ++ more)
unframe_tail [] tail more = refl
unframe_tail (m ∷ ms) tail more = simp (append_assoc, unframe_tail ms tail more)

pub length-le-unframe : (ms : List Bytes) (tail : Bytes) → length ms ≤ length (unframe ms tail)
length-le-unframe [] tail = omega arith
length-le-unframe (m ∷ ms) tail =
    omega (arith, length-le-unframe ms tail, length-append m (13 ∷ 10 ∷ unframe ms tail))

-- Every text is made of messages without "\r\n" and a tail without it.
pub record Framing (s : Bytes) : Type 0 where
  pub messages : List Bytes
  pub tail : Bytes
  pub messages_lack : All Lacks messages
  pub tail_lacks : Lacks tail
  pub frames : s ≡ unframe messages tail

Framing-within : (n : ℕ) (s : Bytes) → length s ≤ n → Framing s
Framing-within zero [] h = record {
  messages = [];
  tail = [];
  messages_lack = tt;
  tail_lacks = (unfold find_crlf in refl);
  frames = refl;
}
Framing-within zero (c ∷ s) h = absurd (omega arith)
Framing-within (suc n) s h = elim (Option-cases (find_crlf s)) [
  | inl e ↦ record { messages = []; tail = s; messages_lack = tt; tail_lacks = e; frames = refl }
  | inr (i, e) ↦
      let (lack, split) = find_crlf-some s i e in
      let f =
        Framing-within n (drop (i + 2) s)
          (omega (arith, length-append (take i s) (13 ∷ 10 ∷ drop (i + 2) s), ap length split)) in
      record {
        messages = take i s ∷ f.messages;
        tail = f.tail;
        messages_lack = (lack, f.messages_lack);
        tail_lacks = f.tail_lacks;
        frames = split ∙ ap (λ r. take i s ++ (13 ∷ 10 ∷ r)) f.frames;
      }
]

pub framing : (s : Bytes) → Framing s
framing s = Framing-within (length s) s (omega arith)
