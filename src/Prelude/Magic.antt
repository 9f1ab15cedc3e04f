-- ===== src/Prelude/Magic.antt =====
-- The four bytes at the head of every message, in src/connection.c and src/message.c.
use mathlib.Core.List.{List, [], ◌∷◌}
use Prim.Native.Nat.{ℕ}

abbrev pub rrac_magic : List ℕ
rrac_magic = b'R' ∷ b'R' ∷ b'A' ∷ b'C' ∷ []
