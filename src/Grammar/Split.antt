-- ===== src/Grammar/Split.antt =====
-- What `split_message` makes of a text.
use ipk.Common.{
  inl, inr, List, [], ◌∷◌, ◌++◌, ◌≡◌, ◌≢◌, refl, sym, ap, ◌∙◌, arith, append_assoc, append-nil,
  ◌==◌, Bytes, All, Bool-cases,
}
use ipk.Grammar.{split_from, split_message}

-- No space in the text.
abbrev pub Spaceless : Bytes → Type 0
Spaceless = All (λ c. c ≢ b' ')

pub split_from_result :
    (s : Bytes) (result : List Bytes) (word : Bytes)
    → split_from s result word ≡ result ++ split_from s [] word
unfolding split_from
split_from_result [] result word = refl
split_from_result (c ∷ s) result word = elim (Bool-cases (c == b' ')) [
  | inl e ↦
      rw (e, split_from)
        (split_from_result s (result ++ word ∷ []) []
          ∙ append_assoc result (word ∷ []) _
          ∙ ap (λ x. result ++ x) (sym (split_from_result s (word ∷ []) [])))
  | inr e ↦ rw (e, split_from) (split_from_result s result (word ++ c ∷ []))
]

split_from-append :
    (p s : Bytes) (word : Bytes)
    → Spaceless p
    → split_from (p ++ (b' ' ∷ s)) [] word ≡ (word ++ p) ∷ split_message s
unfolding split_from split_message
split_from-append [] s word h = split_from_result s (word ∷ []) [] ∙ rw append-nil
split_from-append (c ∷ p) s word (h, hs) =
    ground (arith, split_from-append p s (word ++ c ∷ []) hs, append_assoc word (c ∷ []) p)

-- A word without spaces and a space behind it is the first part.
pub split_message-append :
    (p s : Bytes) → Spaceless p → split_message (p ++ (b' ' ∷ s)) ≡ p ∷ split_message s
unfolding split_message
split_message-append p s h = split_from-append p s [] h

split_from-word : (s word : Bytes) → Spaceless s → split_from s [] word ≡ (word ++ s) ∷ []
unfolding split_from
split_from-word [] word h = rw append-nil
split_from-word (c ∷ s) word (h, hs) =
    ground (arith, split_from-word s (word ++ c ∷ []) hs, append_assoc word (c ∷ []) s)

-- A text without spaces is its only part.
pub split_message-word : (s : Bytes) → Spaceless s → split_message s ≡ s ∷ []
unfolding split_message
split_message-word s h = split_from-word s [] h

-- The three words of an authorisation.
abbrev pub three_words : Bytes → Bytes → Bytes → Bytes
three_words u v w = u ++ (b' ' ∷ (v ++ (b' ' ∷ w)))

pub split_message-three_words :
    (u v w : Bytes)
    → Spaceless u
    → Spaceless v
    → Spaceless w
    → split_message (three_words u v w) ≡ u ∷ v ∷ w ∷ []
split_message-three_words u v w hu hv hw =
    split_message-append u _ hu
    ∙ ap (◌∷◌ u) (split_message-append v w hv ∙ ap (◌∷◌ v) (split_message-word w hw))
