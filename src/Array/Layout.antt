-- ===== src/Array/Layout.antt =====
-- A vector of buffers seen as one run of bytes: where a buffer begins, and which byte stands at a
-- position.
use robotraconteurlite.Prelude.{
  ℕ, zero, suc, ◌+◌, ◌-◌, ◌≤◌, ◌<◌, ◌≡◌, refl, ap₂, List, [], ◌∷◌, Option, none, some, arith,
  length, get_elem?, set, ltb, if◌then◌else◌, size_mod, add_size, ◌*◌, inl, inr, Bool-cases,
}
use robotraconteurlite.Array.{Buffer, BufferVec, byte_len, seek, buffer_vec_len, vec_len_from}

-- The byte lengths of the buffers, for elements of size `e`.
abbrev pub lens : ℕ → BufferVec → List ℕ
lens e [] = []
lens e (b ∷ bs) = byte_len e b ∷ lens e bs

-- The element counts of the buffers.
abbrev pub counts : BufferVec → List ℕ
counts [] = []
counts (b ∷ bs) = b.len ∷ counts bs

abbrev pub total : List ℕ → ℕ
total [] = 0
total (n ∷ ns) = n + total ns

-- The position at which buffer `i` begins.
abbrev pub offset : List ℕ → ℕ → ℕ
offset [] i = 0
offset (n ∷ ns) zero = 0
offset (n ∷ ns) (suc i) = n + offset ns i

-- Each buffer has the memory that its length promises.
abbrev pub IsStored : ℕ → BufferVec → Type 0
IsStored e [] = Unit {0}
IsStored e (b ∷ bs) = (byte_len e b ≤ length b.bytes) × IsStored e bs

-- The byte at position `p` of the vector.
abbrev pub byte_at : ℕ → BufferVec → ℕ → Option ℕ
byte_at e [] p = none
byte_at e (b ∷ bs) p =
    if ltb p (byte_len e b) then get_elem? b.bytes p else byte_at e bs (p - byte_len e b)

pub length-lens : (e : ℕ) (v : BufferVec) → length (lens e v) ≡ length v
length-lens e [] = refl
length-lens e (b ∷ bs) = omega (arith, length-lens e bs)

pub offset-le-total : (ns : List ℕ) (i : ℕ) → offset ns i ≤ total ns
offset-le-total [] i = omega arith
offset-le-total (n ∷ ns) zero = omega arith
offset-le-total (n ∷ ns) (suc i) = omega (arith, offset-le-total ns i)

pub lt-length_of_offset : (ns : List ℕ) (i : ℕ) → offset ns i < total ns → i < length ns
lt-length_of_offset [] i h = absurd (omega arith)
lt-length_of_offset (n ∷ ns) zero h = omega arith
lt-length_of_offset (n ∷ ns) (suc i) h = omega (arith, lt-length_of_offset ns i (omega arith))

offset-zero : (ns : List ℕ) → offset ns 0 ≡ 0
offset-zero [] = refl
offset-zero (n ∷ ns) = refl

pub offset-suc :
    (e : ℕ) (v : BufferVec) (i : ℕ) (b : Buffer)
    → get_elem? v i ≡ some b
    → offset (lens e v) (suc i) ≡ offset (lens e v) i + byte_len e b
offset-suc e [] i b h = absurd (ground arith)
offset-suc e (c ∷ cs) zero b h = ground (arith, offset-zero (lens e cs))
offset-suc e (c ∷ cs) (suc i) b h = omega (arith, offset-suc e cs i b h)

pub IsStored-get_elem? :
    (e : ℕ) (v : BufferVec) (i : ℕ) (b : Buffer)
    → IsStored e v
    → get_elem? v i ≡ some b
    → byte_len e b ≤ length b.bytes
IsStored-get_elem? e [] i b s h = absurd (ground arith)
IsStored-get_elem? e (c ∷ cs) zero b s h = ground arith
IsStored-get_elem? e (c ∷ cs) (suc i) b s h = IsStored-get_elem? e cs i b s.1 h

-- Position `p` of buffer `i` is position `offset i + p` of the vector.
pub byte_at-offset :
    (e : ℕ) (v : BufferVec) (i p : ℕ) (b : Buffer)
    → get_elem? v i ≡ some b
    → p < byte_len e b
    → byte_at e v (offset (lens e v) i + p) ≡ get_elem? b.bytes p
byte_at-offset e [] i p b h lt = absurd (ground arith)
byte_at-offset e (c ∷ cs) zero p b h lt = ground arith
byte_at-offset e (c ∷ cs) (suc i) p b h lt = ground (arith, byte_at-offset e cs i p b h lt)

pub offset_mono : (ns : List ℕ) (i : ℕ) → offset ns i ≤ offset ns (suc i)
offset_mono [] i = omega arith
offset_mono (n ∷ ns) zero = omega arith
offset_mono (n ∷ ns) (suc i) = omega (arith, offset_mono ns i)

-- Replacing the bytes of one buffer by as many.
module _ (e : ℕ) (b : Buffer) (bytes : List ℕ) (same : length bytes ≡ length b.bytes) where
  pub lens-set :
      (v : BufferVec) (i : ℕ)
      → get_elem? v i ≡ some b
      → lens e (set v i (record b { bytes = bytes })) ≡ lens e v
  lens-set [] i h = refl
  lens-set (c ∷ cs) zero h = ground arith
  lens-set (c ∷ cs) (suc i) h = ap₂ ◌∷◌ refl (lens-set cs i h)

  pub counts-set :
      (v : BufferVec) (i : ℕ)
      → get_elem? v i ≡ some b
      → counts (set v i (record b { bytes = bytes })) ≡ counts v
  counts-set [] i h = refl
  counts-set (c ∷ cs) zero h = ground arith
  counts-set (c ∷ cs) (suc i) h = ap₂ ◌∷◌ refl (counts-set cs i h)

  pub IsStored-set :
      (v : BufferVec) (i : ℕ)
      → get_elem? v i ≡ some b
      → IsStored e v
      → IsStored e (set v i (record b { bytes = bytes }))
  IsStored-set [] i h s = s
  IsStored-set (c ∷ cs) zero h s = ground arith
  IsStored-set (c ∷ cs) (suc i) h s = (s.0, IsStored-set cs i h s.1)

  pub byte_at-set :
      (v : BufferVec) (i p : ℕ)
      → get_elem? v i ≡ some b
      → byte_at e (set v i (record b { bytes = bytes })) p ≡ (
          if ltb p (offset (lens e v) i)
          then byte_at e v p
          else if ltb p (offset (lens e v) i + byte_len e b)
          then get_elem? bytes (p - offset (lens e v) i)
          else byte_at e v p)
  byte_at-set [] i p h = absurd (ground arith)
  byte_at-set (c ∷ cs) zero p h = ground arith
  byte_at-set (c ∷ cs) (suc i) p h = ground (arith, byte_at-set cs i (p - byte_len e c) h)

-- A vector as the library's callers set it up: memory for every buffer, and sizes that
-- `size_t` can hold.
pub record IsVec (e : ℕ) (v : BufferVec) : Type 0 where
  pub stored : IsStored e v
  pub elements : total (counts v) < size_mod
  pub sized : total (counts v) * e < size_mod

byte_len-eq : (e : ℕ) (b : Buffer) → b.len * e < size_mod → byte_len e b ≡ b.len * e
byte_len-eq e b h = omega arith

pub total-lens :
    (e : ℕ) (v : BufferVec)
    → total (counts v) * e < size_mod
    → total (lens e v) ≡ total (counts v) * e
total-lens e [] h = omega arith
total-lens e (b ∷ bs) h = grind (arith, byte_len-eq e b, total-lens e bs)

vec_len_from-total :
    (acc : ℕ) (v : BufferVec)
    → acc + total (counts v) < size_mod
    → vec_len_from acc v ≡ acc + total (counts v)
unfolding vec_len_from
vec_len_from-total acc [] h = omega arith
vec_len_from-total acc (b ∷ bs) h =
    omega (arith, vec_len_from-total (add_size acc b.len) bs (omega arith))

-- `robotraconteurlite_buffer_vec_len` is the sum of the lengths.
pub buffer_vec_len-total :
    (v : BufferVec) → total (counts v) < size_mod → buffer_vec_len v ≡ total (counts v)
unfolding buffer_vec_len
buffer_vec_len-total v h = omega (arith, vec_len_from-total 0 v (omega arith))

-- Where `seek` stops: in the buffer that holds `pos`, or at the end of the one before.
abbrev pub Seeks : ℕ → BufferVec → ℕ → ℕ → ℕ → Type 0
Seeks e v current i pos =
    (k : ℕ) × (seek e v current i pos ≡ some (current + offset (lens e v) k, i + k))
    × (current + offset (lens e v) k ≤ pos)
    × (pos ≤ current + offset (lens e v) (suc k))

pub length_pos : (e : ℕ) (v : BufferVec) → 0 < total (lens e v) → 0 < length v
length_pos e [] h = h
length_pos e (b ∷ bs) h = omega arith

pub seek-Seeks :
    (e : ℕ) (v : BufferVec) (current i pos : ℕ)
    → 0 < length v
    → current ≤ pos
    → pos ≤ current + total (lens e v)
    → current + total (lens e v) < size_mod
    → Seeks e v current i pos
unfolding seek
seek-Seeks e [] current i pos ne lo hi fits = elim ne [ ]
seek-Seeks e (b ∷ bs) current i pos ne lo hi fits =
    elim (Bool-cases (ltb (add_size current (byte_len e b)) pos)) [
      | inl beyond ↦
          let rest =
            seek-Seeks e bs (add_size current (byte_len e b)) (i + 1) pos
              (length_pos e bs (ground arith)) (ground arith) (ground arith) (ground arith) in
          (suc rest.0, ground (arith, rest.1), ground (arith, rest.2), ground (arith, rest.3))
      | inr here ↦ (0, ground arith, ground arith, ground (arith, offset-zero (lens e bs)))
    ]
