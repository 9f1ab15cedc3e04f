-- ===== src/Array/Numbers.antt =====
-- src/array_types.c: the unsigned numbers in a vector of buffers, on a little-endian host. A number
-- of `w` bytes is a memory of one element of that size.
use robotraconteurlite.Prelude.{
  ℕ, zero, suc, ◌+◌, ◌*◌, ◌/◌, ◌%◌, ◌^◌, ◌≤◌, ◌<◌, ◌≡◌, refl, ap, ◌∙◌, sym, List, [], ◌∷◌, Option,
  some, arith, length, get_elem?, ◌>>=◌, ltb, get_elem?_ext, Bool-cases, take, get_elem?-take,
  get_elem?-none, inl, inr, size_mod, mul_size, take-append_all,
}
use native.Mathlib.Nat.{pow-suc}
use mathlib.Core.List.{append-nil}
use robotraconteurlite.Status.{Status, success, out_of_range}
use robotraconteurlite.Array.{Buffer, BufferVec, buffer_vec_copy_to_mem, buffer_vec_copy_from_mem}
use robotraconteurlite.Array.Layout.{total, counts, IsVec, byte_at}
use robotraconteurlite.Array.Copied.{Copied}
use robotraconteurlite.Array.Holds.{HoldsAt, Written}
use robotraconteurlite.Array.Refusals.{BadRequest, buffer_vec_copy_vec_ex_refuses}
use robotraconteurlite.Array.RoundTrip.{copy_from_mem_lem, copy_to_mem_lem}

-- The bytes of a number of `w` bytes, the lowest first, and back.
unfoldable pub le_bytes : ℕ → ℕ → List ℕ
le_bytes zero v = []
le_bytes (suc w) v = v % 256 ∷ le_bytes w (v / 256)

pub le_value : List ℕ → ℕ
le_value [] = 0
le_value (b ∷ bs) = b + 256 * le_value bs

-- The number of `w` bytes in a memory.
abbrev memory_value : ℕ → BufferVec → ℕ
memory_value w [] = 0
memory_value w (b ∷ bs) = le_value (take w b.bytes)

-- `robotraconteurlite_buffer_vec_copy_to_uint8` and the like, by the size of the number. `old` is
-- the value of the destination.
pub copy_to_number : ℕ → BufferVec → ℕ → ℕ → Option (Status × ℕ)
copy_to_number w source pos old =
    buffer_vec_copy_to_mem source pos (record { bytes = le_bytes w old; len = 1 }) 0 w 1 >>= λ r.
    some (r.0, memory_value w r.1)

pub copy_from_number : ℕ → BufferVec → ℕ → ℕ → Option (Status × BufferVec)
copy_from_number w dest pos v =
    buffer_vec_copy_from_mem dest pos (record { bytes = le_bytes w v; len = 1 }) 0 w 1

unfoldable pub copy_to_uint8 : BufferVec → ℕ → ℕ → Option (Status × ℕ)
copy_to_uint8 = copy_to_number 1

unfoldable pub copy_to_uint16 : BufferVec → ℕ → ℕ → Option (Status × ℕ)
copy_to_uint16 = copy_to_number 2

unfoldable pub copy_to_uint32 : BufferVec → ℕ → ℕ → Option (Status × ℕ)
copy_to_uint32 = copy_to_number 4

unfoldable pub copy_from_uint8 : BufferVec → ℕ → ℕ → Option (Status × BufferVec)
copy_from_uint8 = copy_from_number 1

unfoldable pub copy_from_uint16 : BufferVec → ℕ → ℕ → Option (Status × BufferVec)
copy_from_uint16 = copy_from_number 2

unfoldable pub copy_from_uint32 : BufferVec → ℕ → ℕ → Option (Status × BufferVec)
copy_from_uint32 = copy_from_number 4

pub length-le_bytes : (w v : ℕ) → length (le_bytes w v) ≡ w
unfolding le_bytes
length-le_bytes zero v = refl
length-le_bytes (suc w) v = ap suc (length-le_bytes w (v / 256))

lt_div : (w v : ℕ) → v < 256 ^ suc w → v / 256 < 256 ^ w
lt_div w v h = omega (arith, pow-suc 256 w)

pub le_value-le_bytes : (w v : ℕ) → v < 256 ^ w → le_value (le_bytes w v) ≡ v
unfolding le_bytes le_value
le_value-le_bytes zero v h = omega arith
le_value-le_bytes (suc w) v h = omega (arith, le_value-le_bytes w (v / 256) (lt_div w v h))

abbrev memory : ℕ → ℕ → Buffer
memory w v = record { bytes = le_bytes w v; len = 1 }

module _ (w : ℕ) (pos_w : 0 < w) (small : w < 16) where
  memory-IsVec : (v : ℕ) → IsVec w (memory w v ∷ [])
  memory-IsVec v = record {
    stored = (omega (arith, length-le_bytes w v), tt);
    elements = omega arith;
    sized = omega arith;
  }

  byte_at-memory :
      (b : Buffer) (k : ℕ) → b.len ≡ 1 → k < w → byte_at w (b ∷ []) k ≡ get_elem? b.bytes k
  byte_at-memory b k e h = ground arith

  module _ (vec : BufferVec) (pos v : ℕ) where
    -- Writing a number puts its bytes at `pos` and leaves every other byte.
    pub copy_from_number-Written :
        IsVec 1 vec
        → pos + w ≤ total (counts vec)
        → (out : BufferVec) × (copy_from_number w vec pos v ≡ some (success, out))
          × Written vec pos (le_bytes w v) out
    unfolding copy_from_number
    copy_from_number-Written ok fits =
        let n : 1 * w ≡ w = omega arith in
        let (out, e, cp) =
          copy_from_mem_lem w (memory w v) (memory-IsVec v) vec ok pos 1 (omega arith) (omega arith)
            (omega arith) in
        (
          out,
          e,
          record {
            holds = record {
              ok = record {
                stored = cp.stored;
                elements = rw cp.lengths ok.elements;
                sized = rw cp.lengths ok.sized;
              };
              fits = rw (cp.lengths, length-le_bytes w v) fits;
              bytes = λ k lt.
                  let here : k < w = omega (arith, length-le_bytes w v) in
                  let run : pos + k ≡ pos * 1 + k = omega arith in
                  let from : 0 * w + k ≡ k = omega arith in
                  ap (λ j. byte_at 1 out j) run
                  ∙ cp.moved k (omega arith)
                  ∙ ap (λ j. byte_at w (memory w v ∷ []) j) from
                  ∙ byte_at-memory (memory w v) k refl here;
            };
            kept = λ j h. elim h [
              | inl before ↦ cp.kept j (inl (omega arith))
              | inr after ↦ cp.kept j (inr (omega (arith, length-le_bytes w v)))
            ];
            lengths = cp.lengths;
          },
        )

    read_value :
        (old : ℕ) (out : BufferVec)
        → Copied 1 w vec (pos * 1) (memory w old ∷ []) (0 * w) (1 * w * 1) out
        → HoldsAt vec pos (le_bytes w v)
        → v < 256 ^ w
        → memory_value w out ≡ v
    read_value old [] cp h lt = absurd (ground (arith, ap length cp.lengths))
    read_value old (b ∷ b' ∷ bs) cp h lt = absurd (ground (arith, ap length cp.lengths))
    read_value old (b ∷ []) cp h lt =
        let one : b.len ≡ 1 = omega (arith, ap total cp.lengths) in
        let same : take w b.bytes ≡ le_bytes w v =
          get_elem?_ext (take w b.bytes) (le_bytes w v) (λ i. elim (Bool-cases (ltb i w)) [
            | inl inside ↦
                let here : i < w = ground arith in
                let n : length (le_bytes w v) ≡ w = length-le_bytes w v in
                let at : 0 * w + i ≡ i = omega arith in
                let at' : pos * 1 + i ≡ pos + i = omega arith in
                (get_elem?-take w b.bytes i ∙ simp inside)
                ∙ sym (byte_at-memory b i one here)
                ∙ ap (λ j. byte_at w (b ∷ []) j) (sym at)
                ∙ cp.moved i (omega arith)
                ∙ ap (λ j. byte_at 1 vec j) at'
                ∙ h.bytes i (omega arith)
            | inr outside ↦
                (get_elem?-take w b.bytes i ∙ simp outside)
                ∙ sym (get_elem?-none (le_bytes w v) i (ground (arith, length-le_bytes w v)))
          ]) in
        ap le_value same ∙ le_value-le_bytes w v lt

    -- Reading a number whose bytes stand at `pos` returns it.
    pub copy_to_number-HoldsAt :
        (old : ℕ)
        → v < 256 ^ w
        → HoldsAt vec pos (le_bytes w v)
        → copy_to_number w vec pos old ≡ some (success, v)
    unfolding copy_to_number
    copy_to_number-HoldsAt old lt h =
        let (out, e, cp) =
          copy_to_mem_lem w (memory w old) (memory-IsVec old) vec h.ok pos 1 (omega arith)
            (omega arith) (omega (arith, h.fits, length-le_bytes w v)) in
        rw e (ap (λ t. some (success, t)) (read_value old out cp h lt))

-- Reading a number that does not lie within the vector is refused, and the destination keeps its value.
pub copy_to_number-refuses :
    (w : ℕ)
    → 0 < w
    → w < 16
    → (vec : BufferVec) (pos old : ℕ) → IsVec 1 vec
    → total (counts vec) < pos + w
    → pos + w < size_mod
    → old < 256 ^ w
    → copy_to_number w vec pos old ≡ some (out_of_range, old)
unfolding copy_to_number buffer_vec_copy_to_mem
copy_to_number-refuses w pos_w small vec pos old ok far sum lt =
    let request : BadRequest 1 w vec pos (mul_size 1 w) (memory w old ∷ []) 0 1 = record {
      source_elements = ok.elements;
      dest_elements = omega arith;
      source_sum = omega arith;
      dest_sum = omega arith;
      some_elements = omega arith;
      bad = inr (inl (omega arith));
    } in
    let whole : take w (le_bytes w old) ≡ le_bytes w old =
      ap (λ xs. take w xs) (sym (append-nil (le_bytes w old)))
      ∙ take-append_all w (le_bytes w old) [] (length-le_bytes w old) in
    rw (buffer_vec_copy_vec_ex_refuses 1 w vec pos (mul_size 1 w) (memory w old ∷ []) 0 1 request)
      (ap (λ v. some (out_of_range, v)) (ap le_value whole ∙ le_value-le_bytes w old lt))

-- Reading a number returns a status, wherever it is read.
pub copy_to_number-some :
    (w : ℕ)
    → 0 < w
    → w < 16
    → (vec : BufferVec) (pos old : ℕ) → IsVec 1 vec
    → pos + w < size_mod
    → (s : Status) × (v : ℕ) × (copy_to_number w vec pos old ≡ some (s, v))
unfolding copy_to_number buffer_vec_copy_to_mem
copy_to_number-some w pos_w small vec pos old ok sum =
    elim (Bool-cases (ltb (total (counts vec)) (pos + w))) [
      | inl far ↦
          let request : BadRequest 1 w vec pos (mul_size 1 w) (memory w old ∷ []) 0 1 = record {
            source_elements = ok.elements;
            dest_elements = omega arith;
            source_sum = omega arith;
            dest_sum = omega arith;
            some_elements = omega arith;
            bad = inr (inl (ground arith));
          } in
          (
            out_of_range,
            memory_value w (memory w old ∷ []),
            rw
                (buffer_vec_copy_vec_ex_refuses 1 w vec pos (mul_size 1 w) (memory w old ∷ []) 0 1
                  request)
                refl,
          )
      | inr near ↦
          let (out, e, cp) =
            copy_to_mem_lem w (memory w old) (memory-IsVec w pos_w small old) vec ok pos 1
              (omega arith) (omega arith) (ground arith) in
          (success, memory_value w out, rw e refl)
    ]
