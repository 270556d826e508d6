-- ===== src/Udp/Fields/Same.antt =====
-- The checks of the two message validators side by side.
use ipk.Common.{true, [], ◌∷◌, ◌≡◌, ◌↔◌, refl, Bytes, All}
use ipk.Grammar
use ipk.Grammar.Accepts.{
  IsId, IsSecret, IsContent, IsName, IdChar, Printable, Sized, validate_id_iff, validate_secret_iff,
  validate_content_iff, validate_dname_iff,
}
use ipk.Grammar.Split.{three_words}
use ipk.Grammar.Credentials.{Credentials, split_message-Credentials}
use ipk.Udp.Fields.{split_message, validate_id, validate_secret, validate_content, validate_dname}

-- An id is 1 to 20 letters, digits and dashes.
pub id_iff : (s : Bytes) → (validate_id s ≡ true) ↔ (Sized 20 s × All IdChar s)
unfolding validate_id Grammar.validate_id
id_iff s = validate_id_iff s

-- A secret is 1 to 128 letters, digits and dashes.
pub secret_iff : (s : Bytes) → (validate_secret s ≡ true) ↔ (Sized 128 s × All IdChar s)
unfolding validate_secret Grammar.validate_secret
secret_iff s = validate_secret_iff s

-- A content is 1 to 1400 characters from 0x20 to 0x7e.
pub content_iff : (s : Bytes) → (validate_content s ≡ true) ↔ (Sized 1400 s × All Printable s)
unfolding validate_content Grammar.validate_content
content_iff s = validate_content_iff s

-- A display name is 1 to 20 characters from 0x20, the space, to 0x7e.
pub dname_iff : (s : Bytes) → (validate_dname s ≡ true) ↔ (Sized 20 s × All Printable s)
unfolding validate_dname Grammar.validate_dname
dname_iff s = validate_dname_iff s

-- What one class takes for well-formed credentials, the other one does too.
pub Credentials-valid :
    {id secret name : Bytes}
    → Credentials id secret name
    → (validate_id id ≡ true) × (validate_secret secret ≡ true) × (validate_dname name ≡ true)
Credentials-valid {id} {secret} {name} c = (
  (id_iff id).1 ((validate_id_iff id).0 c.id_valid),
  (secret_iff secret).1 ((validate_secret_iff secret).0 c.secret_valid),
  (dname_iff name).1 ((validate_dname_iff name).0 c.name_valid),
)

pub split-Credentials :
    {id secret name : Bytes}
    → Credentials id secret name
    → split_message (three_words id secret name) ≡ id ∷ secret ∷ name ∷ []
unfolding split_message Grammar.split_message
split-Credentials c = split_message-Credentials c

pub content_same : (s : Bytes) → validate_content s ≡ Grammar.validate_content s
unfolding validate_content Grammar.validate_content
content_same s = refl

pub dname_same : (s : Bytes) → validate_dname s ≡ Grammar.validate_dname s
unfolding validate_dname Grammar.validate_dname
dname_same s = refl

-- What each check lets through.
pub validate_id-IsId : (s : Bytes) → validate_id s ≡ true → IsId s
validate_id-IsId s v = let h = (id_iff s).0 v in record { sized = h.0; chars = h.1 }

pub validate_secret-IsSecret : (s : Bytes) → validate_secret s ≡ true → IsSecret s
validate_secret-IsSecret s v = let h = (secret_iff s).0 v in record { sized = h.0; chars = h.1 }

pub validate_content-IsContent : (s : Bytes) → validate_content s ≡ true → IsContent s
validate_content-IsContent s v = let h = (content_iff s).0 v in record { sized = h.0; chars = h.1 }

pub validate_dname-IsName : (s : Bytes) → validate_dname s ≡ true → IsName s
validate_dname-IsName s v = let h = (dname_iff s).0 v in record { sized = h.0; chars = h.1 }
