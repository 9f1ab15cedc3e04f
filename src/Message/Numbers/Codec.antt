-- ===== src/Message/Numbers/Codec.antt =====
-- The variable-length numbers: what they are in bytes, and that readers, writers and sizes agree.
use robotraconteurlite.Prelude.{
  ℕ, ◌+◌, ◌%◌, ◌≤◌, ◌<◌, ◌≡◌, ap, ◌∙◌, true, false, some, List, ◌++◌, arith, leb, if◌then◌else◌,
  length, length-append, subst, ◌⊎◌, inl, inr,
}
use robotraconteurlite.Status.{success}
use robotraconteurlite.Array.{BufferVec}
use robotraconteurlite.Array.Layout.{total, counts, IsVec}
use robotraconteurlite.Array.Holds.{HoldsAt, HoldsAt-left, HoldsAt-right}
use robotraconteurlite.Array.Numbers.{le_bytes, length-le_bytes}
use robotraconteurlite.Message.Numbers.{
  ◌then_write◌, message_write_uint8, message_write_uint16, message_write_uint32,
  message_write_uint_x, message_read_uint_x, message_uint_x_size, uint16_max,
}
use robotraconteurlite.Message.Steps.{Wrote-append}
use robotraconteurlite.Message.Numbers.Fields.{
  Wrote, message_write_uint8-Wrote, message_write_uint16-Wrote, message_write_uint32-Wrote,
  message_read_uint8-HoldsAt, message_read_uint16-HoldsAt, message_read_uint32-HoldsAt,
}

-- The bytes of a number: itself, or a mark and its two or four bytes.
unfoldable pub encoded_uint_x : ℕ → List ℕ
encoded_uint_x v =
    if leb v 252
    then le_bytes 1 v
    else if leb v uint16_max
    then le_bytes 1 253 ++ le_bytes 2 v
    else le_bytes 1 254 ++ le_bytes 4 v

encoded_one : (v : ℕ) → v ≤ 252 → encoded_uint_x v ≡ le_bytes 1 v
unfolding encoded_uint_x
encoded_one v h = ground arith

encoded_three :
    (v : ℕ) → 252 < v → v ≤ uint16_max → encoded_uint_x v ≡ le_bytes 1 253 ++ le_bytes 2 v
unfolding encoded_uint_x
encoded_three v h h' = ground arith

encoded_five : (v : ℕ) → uint16_max < v → encoded_uint_x v ≡ le_bytes 1 254 ++ le_bytes 4 v
unfolding encoded_uint_x
encoded_five v h = ground arith

abbrev Size : ℕ → Type 0
Size v = (v ≤ 252) ⊎ ((252 < v) × (v ≤ uint16_max)) ⊎ (uint16_max < v)

sizes : (v : ℕ) → Size v
sizes v = ground arith

length-encoded_uint_x :
    (v : ℕ)
    → length (encoded_uint_x v) ≡ (if leb v 252 then 1 else if leb v uint16_max then 3 else 5)
length-encoded_uint_x v = elim (sizes v) [
  | inl h ↦ ground (arith, ap length (encoded_one v h), length-le_bytes 1 v)
  | inr (inl (h, h')) ↦ ground (
    arith,
    ap length (encoded_three v h h'),
    length-append (le_bytes 1 253) (le_bytes 2 v),
    length-le_bytes 1 253,
    length-le_bytes 2 v,
  )
  | inr (inr h) ↦ ground (
    arith,
    ap length (encoded_five v h),
    length-append (le_bytes 1 254) (le_bytes 4 v),
    length-le_bytes 1 254,
    length-le_bytes 4 v,
  )
]

pub encoded_uint_x_short : (v : ℕ) → length (encoded_uint_x v) ≤ 5
encoded_uint_x_short v = ground (arith, length-encoded_uint_x v)

module _ (vec : BufferVec) (offset v : ℕ) where
  write_one : v ≤ 252 → message_write_uint_x vec offset v ≡ message_write_uint8 vec offset v
  unfolding message_write_uint_x
  write_one h =
      let e : v % 256 ≡ v = omega arith in
      let yes : leb v 252 ≡ true = ground arith in
      simp yes (ap (λ t. message_write_uint8 vec offset t) e)

  write_three :
      252 < v
      → v ≤ uint16_max
      → message_write_uint_x vec offset v
        ≡ (message_write_uint8 vec offset 253 then_write (λ b o. message_write_uint16 b o v))
  unfolding message_write_uint_x
  write_three h h' =
      let e : v % 65536 ≡ v = omega arith in
      let no : leb v 252 ≡ false = ground arith in
      let yes : leb v uint16_max ≡ true = ground arith in
      simp (no, yes)
        (ap (λ t. message_write_uint8 vec offset 253 then_write (λ b o. message_write_uint16 b o t))
          e)

  write_five :
      uint16_max < v
      → message_write_uint_x vec offset v
        ≡ (message_write_uint8 vec offset 254 then_write (λ b o. message_write_uint32 b o v))
  unfolding message_write_uint_x
  write_five h =
      let no : leb v 252 ≡ false = ground arith in
      let no' : leb v uint16_max ≡ false = ground arith in simp (no, no')

  -- Writing a number within the vector succeeds, puts its encoding at the offset, changes no other
  -- byte, and moves the offset behind it.
  pub message_write_uint_x-Wrote :
      IsVec 1 vec
      → offset + length (encoded_uint_x v) ≤ total (counts vec)
      → Wrote vec offset (encoded_uint_x v) (message_write_uint_x vec offset v)
  message_write_uint_x-Wrote ok fits =
      let n = length-encoded_uint_x v in
      elim (sizes v) [
        | inl h ↦
            rw (encoded_one v h, write_one h)
              (message_write_uint8-Wrote vec offset v ok (ground (arith, n)))
        | inr (inl (h, h')) ↦
            rw (encoded_three v h h', write_three h h')
              (Wrote-append vec offset (le_bytes 1 253) (le_bytes 2 v)
                (message_write_uint8 vec offset 253) (λ b o. message_write_uint16 b o v)
                (message_write_uint8-Wrote vec offset 253 ok (ground (arith, n)))
                (λ mid z.
                  message_write_uint16-Wrote mid (offset + length (le_bytes 1 253)) v z.holds.ok
                    (rw z.lengths (ground (arith, n, length-le_bytes 1 253)))))
        | inr (inr h) ↦
            rw (encoded_five v h, write_five h)
              (Wrote-append vec offset (le_bytes 1 254) (le_bytes 4 v)
                (message_write_uint8 vec offset 254) (λ b o. message_write_uint32 b o v)
                (message_write_uint8-Wrote vec offset 254 ok (ground (arith, n)))
                (λ mid z.
                  message_write_uint32-Wrote mid (offset + length (le_bytes 1 254)) v z.holds.ok
                    (rw z.lengths (ground (arith, n, length-le_bytes 1 254)))))
      ]

  -- A mark of one byte and what follows it.
  after_mark :
      (b : ℕ) (ys : List ℕ) → HoldsAt vec offset (le_bytes 1 b ++ ys) → HoldsAt vec (offset + 1) ys
  after_mark b ys h = rw (← length-le_bytes 1 b) (HoldsAt-right vec offset (le_bytes 1 b) ys h)

  read_three :
      (old : ℕ)
      → v < 65536
      → HoldsAt vec offset (le_bytes 1 253 ++ le_bytes 2 v)
      → message_read_uint_x vec offset old ≡ some (success, offset + 3, v)
  unfolding message_read_uint_x
  read_three old lt h =
      let e =
        message_read_uint8-HoldsAt vec offset 253 0 (omega arith)
          (HoldsAt-left vec offset (le_bytes 1 253) (le_bytes 2 v) h) in
      let f =
        message_read_uint16-HoldsAt vec (offset + 1) v 0 lt (after_mark 253 (le_bytes 2 v) h) in
      let at : offset + 1 + 2 ≡ offset + 3 = omega arith in
      rw (e, f) (ap (λ o. some (success, o, v)) at)

  -- The mark 254 and four bytes are read as the number they are, a small one too.
  pub read_five :
      (old : ℕ)
      → v < 4294967296
      → HoldsAt vec offset (le_bytes 1 254 ++ le_bytes 4 v)
      → message_read_uint_x vec offset old ≡ some (success, offset + 5, v)
  unfolding message_read_uint_x
  read_five old lt h =
      let e =
        message_read_uint8-HoldsAt vec offset 254 0 (omega arith)
          (HoldsAt-left vec offset (le_bytes 1 254) (le_bytes 4 v) h) in
      let f =
        message_read_uint32-HoldsAt vec (offset + 1) v old lt (after_mark 254 (le_bytes 4 v) h) in
      let at : offset + 1 + 4 ≡ offset + 5 = omega arith in
      rw e (f ∙ ap (λ o. some (success, o, v)) at)

  read_one :
      (old : ℕ)
      → v ≤ 252
      → HoldsAt vec offset (le_bytes 1 v)
      → message_read_uint_x vec offset old ≡ some (success, offset + 1, v)
  unfolding message_read_uint_x
  read_one old le h =
      let e = message_read_uint8-HoldsAt vec offset v 0 (omega arith) h in
      let yes : leb v 252 ≡ true = ground arith in rw e (simp yes)

  -- A number below 2^32 whose encoding stands at the offset is read, and the offset moves behind
  -- the encoding.
  pub message_read_uint_x-HoldsAt :
      (old : ℕ)
      → v < 4294967296
      → HoldsAt vec offset (encoded_uint_x v)
      → message_read_uint_x vec offset old ≡ some (success, offset + length (encoded_uint_x v), v)
  message_read_uint_x-HoldsAt old lt h = elim (sizes v) [
    | inl le ↦
        let n : 1 ≡ length (encoded_uint_x v) = ground (arith, length-encoded_uint_x v) in
        read_one old le (subst (HoldsAt vec offset) (encoded_one v le) h)
        ∙ ap (λ k. some (success, offset + k, v)) n
    | inr (inl (gt, le)) ↦
        let n : 3 ≡ length (encoded_uint_x v) = ground (arith, length-encoded_uint_x v) in
        read_three old (omega arith) (subst (HoldsAt vec offset) (encoded_three v gt le) h)
        ∙ ap (λ k. some (success, offset + k, v)) n
    | inr (inr gt) ↦
        let n : 5 ≡ length (encoded_uint_x v) = ground (arith, length-encoded_uint_x v) in
        read_five old lt (subst (HoldsAt vec offset) (encoded_five v gt) h)
        ∙ ap (λ k. some (success, offset + k, v)) n
  ]

-- The size function tells the length of the encoding.
pub message_uint_x_size-length :
    (v : ℕ) → message_uint_x_size v ≡ (success, length (encoded_uint_x v))
unfolding message_uint_x_size
message_uint_x_size-length v = ground (arith, length-encoded_uint_x v)
