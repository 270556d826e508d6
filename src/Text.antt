-- ===== src/Text.antt =====
-- The operations of `std::string` and of the C library that the client uses on its texts.
-- A character is a byte, below 256. The classes are those of the "C" locale. A byte above 127 is a
-- negative `char`, for which the C standard leaves `isalnum`, `isprint` and `toupper` undefined: here they
-- answer as glibc does, where it belongs to no class and is its own upper case.
pub mod Crlf
use ipk.Common.{
  All, ◌<◌, ℕ, suc, ◌-◌, Bool, ◌&&◌, ◌||◌, [], ◌∷◌, Option, none, some, map, leb, ◌==◌,
  if◌then◌else◌, Bytes, take, drop,
}

abbrev within : ℕ → ℕ → ℕ → Bool
within lo hi c = leb lo c && leb c hi

-- The bytes for which the C standard says what `isalnum`, `isprint` and `toupper` answer.
abbrev pub Ascii : Bytes → Type 0
Ascii = All (λ c. c < 128)

-- `isalnum`, `isprint` and `toupper`.
unfoldable pub is_alnum : ℕ → Bool
is_alnum c = within b'a' b'z' c || within b'A' b'Z' c || within b'0' b'9' c

unfoldable pub is_print : ℕ → Bool
is_print c = within 0x20 0x7e c

unfoldable pub to_upper : ℕ → ℕ
to_upper c = if within b'a' b'z' c then c - 32 else c

-- `std::transform(s.begin(), s.end(), s.begin(), ::toupper)`
abbrev pub upper : Bytes → Bytes
upper = map to_upper

-- `find` of a character; `none` is `npos`.
unfoldable pub find : ℕ → Bytes → Option ℕ
find b [] = none
find b (c ∷ s) = if c == b then some 0 else elim (find b s) [ none ↦ none | some i ↦ some (suc i) ]

-- `find("\r\n")`
unfoldable pub find_crlf : Bytes → Option ℕ
find_crlf [] = none
find_crlf (c ∷ []) = none
find_crlf (c ∷ d ∷ s) =
    if c == b'\r' && d == b'\n'
    then some 0
    else elim (find_crlf (d ∷ s)) [ none ↦ none | some i ↦ some (suc i) ]

-- `substr(0, pos)` and `substr(pos + 1)`: at `npos` both are the whole text, since `npos + 1` is 0.
unfoldable pub before : Option ℕ → Bytes → Bytes
before none s = s
before (some i) s = take i s

unfoldable pub after : Option ℕ → Bytes → Bytes
after none s = s
after (some i) s = drop (suc i) s

-- `pop_back`; on the empty string it is undefined behaviour, `none`.
unfoldable pub pop_back : Bytes → Option Bytes
pop_back [] = none
pop_back (c ∷ []) = some []
pop_back (c ∷ d ∷ s) = elim (pop_back (d ∷ s)) [ none ↦ none | some r ↦ some (c ∷ r) ]
