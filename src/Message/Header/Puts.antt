-- ===== src/Message/Header/Puts.antt =====
-- Single writers of headers: the bytes that each puts at its offset.
use robotraconteurlite.Prelude.{
  ℕ, ◌≡◌, refl, ap, ◌∙◌, sym, List, [], ◌∷◌, ◌++◌, arith, length, joined, subst,
}
use mathlib.Core.List.{append_assoc}
use robotraconteurlite.Prelude.Magic.{rrac_magic}
use robotraconteurlite.Array.Numbers.{le_bytes, length-le_bytes}
use robotraconteurlite.Message.Numbers.{
  message_write_uint8, message_write_uint16, message_write_uint32, message_write_uint_x,
}
use robotraconteurlite.Message.Numbers.Fields.{
  message_write_uint8-Wrote, message_write_uint16-Wrote, message_write_uint32-Wrote,
}
use robotraconteurlite.Message.Numbers.Codec.{encoded_uint_x, message_write_uint_x-Wrote}
use robotraconteurlite.Message.Steps.{Puts}
use robotraconteurlite.Message.Strings.{nodeid_size, write_run}
use robotraconteurlite.Message.Strings.Laws.{write_run-Puts}

pub uint8-Puts : (v : ℕ) → Puts (λ vec o. message_write_uint8 vec o v) (le_bytes 1 v)
uint8-Puts v vec o ok fits =
    message_write_uint8-Wrote vec o v ok (omega (arith, length-le_bytes 1 v))

pub uint16-Puts : (v : ℕ) → Puts (λ vec o. message_write_uint16 vec o v) (le_bytes 2 v)
uint16-Puts v vec o ok fits =
    message_write_uint16-Wrote vec o v ok (omega (arith, length-le_bytes 2 v))

pub uint32-Puts : (v : ℕ) → Puts (λ vec o. message_write_uint32 vec o v) (le_bytes 4 v)
uint32-Puts v vec o ok fits =
    message_write_uint32-Wrote vec o v ok (omega (arith, length-le_bytes 4 v))

pub uint_x-Puts : (v : ℕ) → Puts (λ vec o. message_write_uint_x vec o v) (encoded_uint_x v)
uint_x-Puts v vec o ok fits = message_write_uint_x-Wrote vec o v ok fits

pub nodeid-Puts :
    (id : List ℕ) → length id ≡ nodeid_size → Puts (λ vec o. write_run nodeid_size id vec o) id
nodeid-Puts id n =
    subst (λ k. Puts (λ vec o. write_run k id vec o) id) n (write_run-Puts id (omega arith))

pub magic-Puts : Puts (λ vec o. write_run 4 rrac_magic vec o) rrac_magic
magic-Puts vec o ok fits = write_run-Puts rrac_magic (omega arith) vec o ok fits

pub joined-++ : (xss yss : List (List ℕ)) → joined (xss ++ yss) ≡ joined xss ++ joined yss
joined-++ [] yss = refl
joined-++ (xs ∷ xss) yss =
    ap (λ t. xs ++ t) (joined-++ xss yss) ∙ sym (append_assoc xs (joined xss) (joined yss))
