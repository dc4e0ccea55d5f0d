-- ===== src/Datum/Messages/Laws.antt =====
-- The opening byte and the terminator, read from a message that holds them.
use ratum.Base.{ℕ, ◌≡◌, refl, not, List, [], ◌∷◌, ok, ◌==◌, ==_refl}
use ratum.Reader.{cursor, fail_if, at_end}
use ratum.Reader.Laws.{>>=_ok, u8-cons}
use ratum.Datum.Messages.{
  Error, from_truncated, struct_end, open_message, read_terminator, read_final_terminator,
}

fail_if-not_eq :
    (b : ℕ) (e : Error) {w r : List ℕ} → fail_if (not (b == b)) e (cursor w r) ≡ ok (tt, cursor w r)
fail_if-not_eq b e = rw (==_refl b)

pub open_message-cons :
    (subcmd : ℕ) (w r : List ℕ) → open_message subcmd (cursor w (subcmd ∷ r)) ≡ ok (tt, cursor w r)
unfolding open_message
open_message-cons subcmd w r =
    >>=_ok _ _ (u8-cons "subcommand" w r subcmd) (fail_if-not_eq subcmd _)

pub read_terminator-cons :
    (w r : List ℕ) → read_terminator (cursor w (struct_end ∷ r)) ≡ ok (tt, cursor w r)
unfolding read_terminator
read_terminator-cons w r = >>=_ok _ _ (u8-cons "terminator" w r struct_end) refl

pub read_final_terminator-cons :
    (w : List ℕ) → read_final_terminator (cursor w (struct_end ∷ [])) ≡ ok (tt, cursor w [])
unfolding read_final_terminator at_end
read_final_terminator-cons w = >>=_ok _ _ (read_terminator-cons w []) refl
