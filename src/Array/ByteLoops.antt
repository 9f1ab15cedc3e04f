-- ===== src/Array/ByteLoops.antt =====
-- The searches and the copying loop of buffer_vec_copy_vec against those of buffer_vec_copy_vec_ex at
-- element size 1: each goes through the same rounds, and so both copies return the same.
use robotraconteurlite.Prelude.{
  ℕ, zero, suc, ◌+◌, ◌<◌, ◌≡◌, refl, Bool-cases, some, [], ◌∷◌, arith, ◌==◌, get_elem?, set,
  add_size, sub_size, size_mod, inl, inr, Option-cases,
}
use robotraconteurlite.Array.{
  Buffer, BufferVec, byte_len, block_len, seek, seek_len, memcpy, copy_loop, copy_vec_loop,
}

-- Every length is a size_t.
unfoldable pub Sized : BufferVec → Type 0
Sized [] = Unit {0}
Sized (b ∷ bs) = (b.len < size_mod) × Sized bs

Sized-get_elem? :
    (v : BufferVec) (i : ℕ) (b : Buffer) → Sized v → get_elem? v i ≡ some b → b.len < size_mod
unfolding Sized
Sized-get_elem? [] i b ok e = absurd (ground (arith, e))
Sized-get_elem? (x ∷ xs) zero b ok e = ground (arith, ok)
Sized-get_elem? (x ∷ xs) (suc i) b ok e = Sized-get_elem? xs i b ok.1 e

Sized-set : (v : BufferVec) (i : ℕ) (b : Buffer) → Sized v → b.len < size_mod → Sized (set v i b)
unfolding Sized
Sized-set [] i b ok h = tt
Sized-set (x ∷ xs) zero b ok h = (h, ok.1)
Sized-set (x ∷ xs) (suc i) b ok h = (ok.0, Sized-set xs i b ok.1 h)

byte_len-one : (b : Buffer) → b.len < size_mod → byte_len 1 b ≡ b.len
byte_len-one b h = omega arith

pub seek_len-seek :
    (v : BufferVec) (current i pos : ℕ)
    → Sized v
    → seek_len v current i pos ≡ seek 1 v current i pos
unfolding seek_len seek Sized
seek_len-seek [] current i pos ok = refl
seek_len-seek (b ∷ bs) current i pos ok =
    rw (byte_len-one b ok.0, seek_len-seek bs (add_size current b.len) (i + 1) pos ok.1) refl

pub copy_vec_loop-copy_loop :
    (source : BufferVec) (fuel si sp : ℕ) (dest : BufferVec) (di dp n : ℕ)
    → Sized source
    → Sized dest
    → copy_vec_loop source fuel si sp dest di dp n ≡ copy_loop 1 1 source fuel si sp dest di dp n
unfolding copy_vec_loop copy_loop
copy_vec_loop-copy_loop source zero si sp dest di dp n ok ok' = refl
copy_vec_loop-copy_loop source (suc fuel) si sp dest di dp zero ok ok' = refl
copy_vec_loop-copy_loop source (suc fuel) si sp dest di dp (suc n) ok ok' =
    elim (Option-cases (get_elem? source si)) [
      | inl e ↦ ground arith
      | inr (s, s_at) ↦ elim (Option-cases (get_elem? dest di)) [
        | inl e ↦ ground arith
        | inr (d, d_at) ↦
            let s_len = byte_len-one s (Sized-get_elem? source si s ok s_at) in
            let d_small = Sized-get_elem? dest di d ok' d_at in
            let d_len = byte_len-one d d_small in
            elim (Bool-cases (sub_size s.len sp == 0)) [
              | inl s_end ↦ ground (
                arith,
                s_len,
                copy_vec_loop-copy_loop source fuel (si + 1) 0 dest di dp (suc n) ok ok',
              )
              | inr s_more ↦ elim (Bool-cases (sub_size d.len dp == 0)) [
                | inl d_end ↦ ground (
                  arith,
                  s_len,
                  d_len,
                  copy_vec_loop-copy_loop source fuel si sp dest (di + 1) 0 (suc n) ok ok',
                )
                | inr d_more ↦
                    let m : ℕ = block_len (sub_size s.len sp) (sub_size d.len dp) (suc n) in
                    elim (Option-cases (memcpy d.bytes dp s.bytes sp m)) [
                      | inl out ↦ ground (arith, s_len, d_len)
                      | inr (bytes, e) ↦
                          let dest' : BufferVec = set dest di (record d { bytes = bytes }) in
                          ground (
                            arith,
                            s_len,
                            d_len,
                            copy_vec_loop-copy_loop source fuel si (add_size sp m) dest' di
                                (add_size dp m) (sub_size (suc n) m) ok
                                (Sized-set dest di (record d { bytes = bytes }) ok' d_small),
                          )
                    ]
              ]
            ]
      ]
    ]
