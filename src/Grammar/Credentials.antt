-- ===== src/Grammar/Credentials.antt =====
-- The argument of a well-formed /auth.
use ipk.Common.{true, ◌∷◌, [], ◌≡◌, Bytes}
use ipk.Grammar.{split_message, validate_id, validate_secret, validate_dname}
use ipk.Grammar.Split.{Spaceless, three_words, split_message-three_words}
use ipk.Grammar.Accepts.{validate_id_iff, validate_secret_iff, IdChar-Spaceless}

-- Valid fields; the display name has no space, so that it is one word.
pub record Credentials (id secret name : Bytes) : Type 0 where
  pub id_valid : validate_id id ≡ true
  pub secret_valid : validate_secret secret ≡ true
  pub name_valid : validate_dname name ≡ true
  pub name_Spaceless : Spaceless name

pub split_message-Credentials :
    {id secret name : Bytes}
    → Credentials id secret name
    → split_message (three_words id secret name) ≡ id ∷ secret ∷ name ∷ []
split_message-Credentials {id} {secret} {name} c =
    split_message-three_words id secret name
      (IdChar-Spaceless id ((validate_id_iff id).0 c.id_valid).1)
      (IdChar-Spaceless secret ((validate_secret_iff secret).0 c.secret_valid).1) c.name_Spaceless
