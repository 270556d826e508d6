-- ===== src/Tests/Fields.antt =====
-- The checks of the fields, `split_message` and the validators at concrete texts.
use ipk.Common.{true, false, [], ◌∷◌, ◌≡◌, refl, arith, Bytes, lit, bytes_eq}
use ipk.Commands.{Plain}
use ipk.Text.{find, before, to_upper, is_print, is_alnum}
use ipk.Grammar.{
  validate_id, validate_secret, validate_content, validate_dname, all_chars, split_message,
}
use ipk.Grammar.Split.{Spaceless}
use ipk.Grammar.Credentials.{Credentials}

abbrev pub ann : Bytes
ann = lit "Ann"

abbrev pub text : Bytes
text = lit "see you  soon"

pub ann-valid : validate_dname ann ≡ true
unfolding validate_dname all_chars is_print lit
ann-valid = refl

pub ann-Spaceless : Spaceless ann
unfolding lit
ann-Spaceless = omega arith

pub text-valid : validate_content text ≡ true
unfolding validate_content all_chars is_print lit
text-valid = refl

-- `ab s Ann`
pub credentials : Credentials (lit "ab") (lit "s") ann
unfolding validate_id validate_secret validate_dname all_chars is_alnum is_print lit
credentials = record {
  id_valid = refl;
  secret_valid = refl;
  name_valid = refl;
  name_Spaceless = ann-Spaceless;
}

pub text-Plain : Plain text
unfolding bytes_eq lit find before to_upper
text-Plain = record {
  no_exit = refl;
  no_slash = refl;
  no_auth = refl;
  no_join = refl;
  no_rename = refl;
  no_help = refl;
}

refused :
    (validate_id (lit "a b") ≡ false)
    × (validate_id [] ≡ false)
    × (validate_content (9 ∷ []) ≡ false)
    × (validate_dname (lit "two words") ≡ true)
unfolding validate_id validate_content validate_dname all_chars is_alnum is_print lit
refused = (refl, refl, refl, refl)

parts : split_message (lit "a  b ") ≡ lit "a" ∷ [] ∷ lit "b" ∷ [] ∷ []
unfolding split_message lit
parts = refl
