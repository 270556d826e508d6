-- ===== src/Tcp/Content.antt =====
-- The parts of a text, and the content that the validators glue of parts.
use ipk.Common.{
  ℕ, inl, inr, [], ◌∷◌, ◌++◌, some, ◌≡◌, refl, sym, ap, ◌∙◌, arith, append_assoc, ◌==◌, ==_iff,
  Bytes, Bool-cases,
}
use ipk.Text.{pop_back}
use ipk.Grammar.{split_from, split_message}
use ipk.Grammar.Split.{split_from_result}
use ipk.Tcp.Validator.{glue, content_of}

glue-split_from : (s word : Bytes) → glue (split_from s [] word) ≡ word ++ (s ++ b' ' ∷ [])
unfolding split_from glue
glue-split_from [] word = refl
glue-split_from (c ∷ s) word = elim (Bool-cases (c == b' ')) [
  | inl e ↦
      rw (e, split_from)
        (ap glue (split_from_result s (word ∷ []) [])
          ∙ ap (λ x. word ++ (b' ' ∷ x)) (glue-split_from s [])
          ∙ ap (λ x. word ++ (x ∷ (s ++ b' ' ∷ []))) (sym ((==_iff c b' ').0 e)))
  | inr e ↦ rw (e, split_from) (glue-split_from s (word ++ c ∷ []) ∙ append_assoc word (c ∷ []) _)
]

pub pop_back-append : (s : Bytes) (c : ℕ) → pop_back (s ++ c ∷ []) ≡ some s
unfolding pop_back
pop_back-append [] c = refl
pop_back-append (d ∷ []) c = refl
pop_back-append (d ∷ e ∷ s) c = ground (arith, pop_back-append (e ∷ s) c)

-- The content glued from the parts of a text is the text.
pub content_of-split_message : (s : Bytes) → content_of (split_message s) ≡ some s
unfolding content_of split_message
content_of-split_message s = ap pop_back (glue-split_from s []) ∙ pop_back-append s b' '
