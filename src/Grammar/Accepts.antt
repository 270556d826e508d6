-- ===== src/Grammar/Accepts.antt =====
-- What the four checks of the fields accept, exactly.
use ipk.Common.{
  ℕ, ◌≤◌, Bool, true, false, not, ◌⊎◌, ◌↔◌, [], ◌∷◌, ◌≡◌, refl, arith, if◌then◌else◌, Bytes, All,
  length, ◌≢◌, All-imp,
}
use ipk.Text.{is_alnum, is_print}
use ipk.Grammar.Split.{Spaceless}
use ipk.Grammar.{
  size_refused, all_chars, id_char, content_char, validate_id, validate_secret, validate_content,
  validate_dname,
}

-- A letter, a digit or a dash.
abbrev pub IdChar : ℕ → Type 0
IdChar c =
    (b'a' ≤ c × (c ≤ b'z')) ⊎ ((b'A' ≤ c × (c ≤ b'Z')) ⊎ ((b'0' ≤ c × (c ≤ b'9')) ⊎ (c ≡ b'-')))

-- A printable character or a space.
abbrev pub Printable : ℕ → Type 0
Printable c = (0x20 ≤ c) × (c ≤ 0x7e)

abbrev pub Sized : ℕ → Bytes → Type 0
Sized most s = (1 ≤ length s) × (length s ≤ most)

-- What a field may be: an id, a secret, a content, a display name.
pub record IsId (s : Bytes) : Type 0 where
  pub sized : Sized 20 s
  pub chars : All IdChar s

pub record IsSecret (s : Bytes) : Type 0 where
  pub sized : Sized 128 s
  pub chars : All IdChar s

pub record IsContent (s : Bytes) : Type 0 where
  pub sized : Sized 1400 s
  pub chars : All Printable s

pub record IsName (s : Bytes) : Type 0 where
  pub sized : Sized 20 s
  pub chars : All Printable s

all_chars_iff :
    (p : ℕ → Bool) (P : ℕ → Type 0)
    → ((c : ℕ) → (p c ≡ true) ↔ P c)
    → (s : Bytes) → (all_chars p s ≡ true) ↔ All P s
unfolding all_chars
all_chars_iff p P h [] = (λ _. tt, λ _. refl)
all_chars_iff p P h (c ∷ s) = go (p c) (h c) (all_chars_iff p P h s)
  where
    go :
        (b : Bool)
        → (b ≡ true) ↔ P c
        → (all_chars p s ≡ true) ↔ All P s
        → ((if not b then false else all_chars p s) ≡ true) ↔ (P c × All P s)
    go true i j = (λ e. (i.0 refl, j.0 e), λ e. j.1 e.1)
    go false i j = (λ e. cc, λ e. cc (i.1 e.0))

-- A check of the size and of every character.
checked_iff :
    (n : ℕ) (p : ℕ → Bool) (P : ℕ → Type 0)
    → ((c : ℕ) → (p c ≡ true) ↔ P c)
    → (s : Bytes)
    → ((if size_refused n s then false else all_chars p s) ≡ true) ↔ (Sized n s × All P s)
checked_iff n p P h s = go (size_refused n s) refl (all_chars_iff p P h s)
  where
    go :
        (b : Bool)
        → size_refused n s ≡ b
        → (all_chars p s ≡ true) ↔ All P s
        → ((if b then false else all_chars p s) ≡ true) ↔ (Sized n s × All P s)
    go true e j = (λ f. cc, λ f. absurd (ground (arith, f.0)))
    go false e j = (λ f. (ground arith, j.0 f), λ f. j.1 f.1)

id_char_iff : (c : ℕ) → (id_char c ≡ true) ↔ IdChar c
unfolding is_alnum
id_char_iff c = ground arith

is_print_iff : (c : ℕ) → (is_print c ≡ true) ↔ Printable c
unfolding is_print
is_print_iff c = ground arith

content_char_iff : (c : ℕ) → (content_char c ≡ true) ↔ Printable c
unfolding is_print
content_char_iff c = ground arith

-- An id is 1 to 20 letters, digits and dashes.
pub validate_id_iff : (s : Bytes) → (validate_id s ≡ true) ↔ (Sized 20 s × All IdChar s)
unfolding validate_id
validate_id_iff s = checked_iff 20 id_char IdChar id_char_iff s

-- A secret is 1 to 128 letters, digits and dashes.
pub validate_secret_iff : (s : Bytes) → (validate_secret s ≡ true) ↔ (Sized 128 s × All IdChar s)
unfolding validate_secret
validate_secret_iff s = checked_iff 128 id_char IdChar id_char_iff s

-- A content is 1 to 1400 characters from 0x20 to 0x7e.
pub validate_content_iff :
    (s : Bytes) → (validate_content s ≡ true) ↔ (Sized 1400 s × All Printable s)
unfolding validate_content
validate_content_iff s = checked_iff 1400 content_char Printable content_char_iff s

-- A display name is 1 to 20 characters from 0x20, the space, to 0x7e.
pub validate_dname_iff : (s : Bytes) → (validate_dname s ≡ true) ↔ (Sized 20 s × All Printable s)
unfolding validate_dname
validate_dname_iff s = checked_iff 20 is_print Printable is_print_iff s

-- What each check lets through.
pub validate_id-IsId : (s : Bytes) → validate_id s ≡ true → IsId s
validate_id-IsId s v = let h = (validate_id_iff s).0 v in record { sized = h.0; chars = h.1 }

pub validate_secret-IsSecret : (s : Bytes) → validate_secret s ≡ true → IsSecret s
validate_secret-IsSecret s v =
    let h = (validate_secret_iff s).0 v in record { sized = h.0; chars = h.1 }

pub validate_content-IsContent : (s : Bytes) → validate_content s ≡ true → IsContent s
validate_content-IsContent s v =
    let h = (validate_content_iff s).0 v in record { sized = h.0; chars = h.1 }

pub validate_dname-IsName : (s : Bytes) → validate_dname s ≡ true → IsName s
validate_dname-IsName s v =
    let h = (validate_dname_iff s).0 v in record { sized = h.0; chars = h.1 }

-- An id or a secret has no space.
pub IdChar-Spaceless : (s : Bytes) → All IdChar s → Spaceless s
IdChar-Spaceless s h = All-imp IdChar (λ c. c ≢ b' ') s (λ c i. ground arith) h
