-- ===== src/Commands.antt =====
-- The lines of the user that both protocol handlers tell apart by the same tests.
use ipk.Common.{
  true, false, bytes_eq_iff, Bool-cases, inl, inr, refl, ◌++◌, ◌≡◌, Bytes, lit, bytes_eq, get_or,
  ◌==◌,
}
use ipk.Text.{to_upper, upper, find, before}

-- The word that decides.
abbrev pub command_of : Bytes → Bytes
command_of message = upper (before (find b' ' message) message)

-- A line that is no command.
pub record Plain (text : Bytes) : Type 0 where
  pub no_exit : bytes_eq text (lit "/exit") ≡ false
  pub no_slash : (get_or text 0 0 == b'/') ≡ false
  pub no_auth : bytes_eq (command_of text) (lit "/AUTH") ≡ false
  pub no_join : bytes_eq (command_of text) (lit "/JOIN") ≡ false
  pub no_rename : bytes_eq (command_of text) (lit "/RENAME") ≡ false
  pub no_help : bytes_eq (command_of text) (lit "/HELP") ≡ false

abbrev pub auth_line : Bytes → Bytes
auth_line argument = lit "/auth " ++ argument

-- A /rename, in any case, is none of the lines that are tested for before.
rename_word :
    (c : Bytes)
    → bytes_eq c (lit "/RENAME") ≡ true
    → (bytes_eq c (lit "/AUTH") ≡ false) × (bytes_eq c (lit "/JOIN") ≡ false)
unfolding lit bytes_eq
rename_word c h = rw ((bytes_eq_iff c (lit "/RENAME")).0 h) (refl, refl)

exit_renames_not :
    (m : Bytes) → bytes_eq (command_of m) (lit "/RENAME") ≡ true → bytes_eq m (lit "/exit") ≡ false
unfolding lit bytes_eq find before to_upper
exit_renames_not m h = elim (Bool-cases (bytes_eq m (lit "/exit"))) [
  | inl e ↦ cc (rw ((bytes_eq_iff m (lit "/exit")).0 e) at h)
  | inr e ↦ e
]

pub rename_comes_to_its_test :
    (m : Bytes)
    → bytes_eq (command_of m) (lit "/RENAME") ≡ true
    → (bytes_eq m (lit "/exit") ≡ false)
      × (bytes_eq (command_of m) (lit "/AUTH") ≡ false)
      × (bytes_eq (command_of m) (lit "/JOIN") ≡ false)
rename_comes_to_its_test m h =
    let (not_auth, not_join) = rename_word (command_of m) h in
    (exit_renames_not m h, not_auth, not_join)
