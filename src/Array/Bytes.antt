-- ===== src/Array/Bytes.antt =====
-- Runs of bytes that are copied between a memory and a vector of buffers, as node ids and strings are.
use robotraconteurlite.Prelude.{
  ℕ, ◌+◌, ◌*◌, ◌≤◌, ◌<◌, ◌≡◌, ap, ◌∙◌, sym, List, [], ◌∷◌, some, arith, length, get_elem?, ltb,
  get_elem?_ext, Bool-cases, take, get_elem?-take, get_elem?-none, inl, inr, size_mod,
}
use robotraconteurlite.Status.{success}
use robotraconteurlite.Array.{Buffer, BufferVec, buffer_vec_copy_to_mem, buffer_vec_copy_from_mem}
use robotraconteurlite.Array.Layout.{total, counts, IsVec, byte_at}
use robotraconteurlite.Array.Copied.{Copied}
use robotraconteurlite.Array.Holds.{HoldsAt, Written}
use robotraconteurlite.Array.RoundTrip.{copy_from_mem_lem, copy_to_mem_lem}

-- The bytes of a memory of `len` bytes.
abbrev pub memory_of : List ℕ → ℕ → Buffer
memory_of bytes len = record { bytes = bytes; len = len }

memory_of-IsVec :
    (bytes : List ℕ) (len : ℕ)
    → len ≤ length bytes
    → len < size_mod
    → IsVec 1 (memory_of bytes len ∷ [])
memory_of-IsVec bytes len h small = record {
  stored = (omega arith, tt);
  elements = omega arith;
  sized = omega arith;
}

byte_at-memory_of :
    (b : Buffer) (k : ℕ) → k < b.len → b.len < size_mod → byte_at 1 (b ∷ []) k ≡ get_elem? b.bytes k
byte_at-memory_of b k h small = ground arith

module _ (vec : BufferVec) (pos : ℕ) (xs : List ℕ) (more : 0 < length xs) where
  -- Writing the bytes puts them at `pos` and leaves every other byte.
  pub copy_from_bytes-Written :
      IsVec 1 vec
      → pos + length xs ≤ total (counts vec)
      → (out : BufferVec) × (buffer_vec_copy_from_mem vec pos
            (memory_of xs (length xs))
            0
            1
            (length xs)
          ≡ some (success, out))
        × Written vec pos xs out
  copy_from_bytes-Written ok fits =
      let small : length xs < size_mod = omega (arith, ok.elements) in
      let (out, e, cp) =
        copy_from_mem_lem 1 (memory_of xs (length xs))
          (memory_of-IsVec xs (length xs) (omega arith) small) vec ok pos (length xs) (omega arith)
          (omega arith) (omega arith) in
      (
        out,
        e,
        record {
          holds = record {
            ok = record {
              stored = cp.stored;
              elements = rw cp.lengths ok.elements;
              sized = rw cp.lengths ok.sized;
            };
            fits = rw cp.lengths fits;
            bytes = λ k lt.
                let run : pos + k ≡ pos * 1 + k = omega arith in
                let from : 0 * 1 + k ≡ k = omega arith in
                ap (λ j. byte_at 1 out j) run
                ∙ cp.moved k (omega arith)
                ∙ ap (λ j. byte_at 1 (memory_of xs (length xs) ∷ []) j) from
                ∙ byte_at-memory_of (memory_of xs (length xs)) k lt small;
          };
          kept = λ j h. elim h [
            | inl before ↦ cp.kept j (inl (omega arith))
            | inr after ↦ cp.kept j (inr (omega arith))
          ];
          lengths = cp.lengths;
        },
      )

  module _ (mem : List ℕ) (len : ℕ) (room : length xs ≤ len) (stored : len ≤ length mem)
      (small : len < size_mod) (h : HoldsAt vec pos xs) where
    read_bytes :
        (out : BufferVec)
        → Copied 1 1 vec (pos * 1) (memory_of mem len ∷ []) (0 * 1) (length xs * 1 * 1) out
        → (bytes : List ℕ) × (out ≡ memory_of bytes len ∷ [])
          × (take (length xs) bytes ≡ xs)
          × (len ≤ length bytes)
    read_bytes [] cp = absurd (ground (arith, ap length cp.lengths))
    read_bytes (b ∷ b' ∷ bs) cp = absurd (ground (arith, ap length cp.lengths))
    read_bytes (b ∷ []) cp =
        let same_len : b.len ≡ len = omega (arith, ap total cp.lengths) in
        let same : take (length xs) b.bytes ≡ xs = get_elem?_ext (take (length xs) b.bytes) xs (λ i.
          elim (Bool-cases (ltb i (length xs))) [
            | inl inside ↦
                let here : i < length xs = ground arith in
                let at : 0 * 1 + i ≡ i = omega arith in
                let at' : pos * 1 + i ≡ pos + i = omega arith in
                (get_elem?-take (length xs) b.bytes i ∙ simp inside)
                ∙ sym (byte_at-memory_of b i (omega arith) (omega arith))
                ∙ ap (λ j. byte_at 1 (b ∷ []) j) (sym at)
                ∙ cp.moved i (omega arith)
                ∙ ap (λ j. byte_at 1 vec j) at'
                ∙ h.bytes i here
            | inr outside ↦
                (get_elem?-take (length xs) b.bytes i ∙ simp outside)
                ∙ sym (get_elem?-none xs i (ground arith))
          ]) in
        (b.bytes, ap (λ n. memory_of b.bytes n ∷ []) same_len, same, omega (arith, cp.stored.0))

    -- Reading bytes that stand at `pos` into a memory with room for them puts them at its front.
    pub copy_to_bytes-HoldsAt :
        (bytes : List ℕ) × (buffer_vec_copy_to_mem vec pos (memory_of mem len) 0 1 (length xs)
          ≡ some (success, memory_of bytes len ∷ []))
        × (take (length xs) bytes ≡ xs)
        × (len ≤ length bytes)
    copy_to_bytes-HoldsAt =
        let (out, e, cp) =
          copy_to_mem_lem 1 (memory_of mem len) (memory_of-IsVec mem len stored small) vec h.ok pos
            (length xs) (omega arith) (omega arith) (omega (arith, h.fits)) in
        let (bytes, same, front, still) = read_bytes out cp in
        (bytes, e ∙ ap (λ v. some (success, v)) same, front, still)
