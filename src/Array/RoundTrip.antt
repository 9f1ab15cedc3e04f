-- ===== src/Array/RoundTrip.antt =====
-- `robotraconteurlite_buffer_vec_copy_from_mem` and `robotraconteurlite_buffer_vec_copy_to_mem`,
-- by which every number, string and array enters and leaves a message.
use robotraconteurlite.Prelude.{ℕ, ◌+◌, ◌*◌, ◌≤◌, ◌<◌, ◌≡◌, [], ◌∷◌, some, arith, mul_size}
use robotraconteurlite.Status.{success}
use robotraconteurlite.Array.{Buffer, BufferVec, buffer_vec_copy_to_mem, buffer_vec_copy_from_mem}
use robotraconteurlite.Array.Layout.{total, counts, IsVec, byte_at}
use robotraconteurlite.Array.Copied.{Copied}
use robotraconteurlite.Array.Laws.{Request, buffer_vec_copy_vec_ex-Copied, mul_small}

-- The first `n` elements of size `e` of a memory, and a run of as many bytes at `pos`.
module _ (e : ℕ) (mem : Buffer) (mem_vec : IsVec e (mem ∷ [])) (vec : BufferVec)
    (vec_ok : IsVec 1 vec) (pos n : ℕ) (some_bytes : 0 < n * e) (in_mem : n ≤ mem.len)
    (in_vec : pos + n * e ≤ total (counts vec)) where
  pub elements_fit : mul_size n e ≡ n * e
  elements_fit = mul_small n (total (counts (mem ∷ []))) e (omega arith) mem_vec.sized

  write-Request : Request e 1 (mem ∷ []) 0 n vec pos (n * e)
  write-Request = record {
    source_vec = mem_vec;
    dest_vec = vec_ok;
    same_bytes = omega arith;
    some_bytes = some_bytes;
    source_in = omega arith;
    dest_in = in_vec;
  }

  read-Request : Request 1 e vec pos (n * e) (mem ∷ []) 0 n
  read-Request = record {
    source_vec = vec_ok;
    dest_vec = mem_vec;
    same_bytes = omega arith;
    some_bytes = omega arith;
    source_in = in_vec;
    dest_in = omega arith;
  }

  -- Writing the elements of a memory into a vector succeeds, puts their bytes at `pos` and changes
  -- no other byte.
  pub copy_from_mem_lem :
      (out : BufferVec) × (buffer_vec_copy_from_mem vec pos mem 0 e n ≡ some (success, out))
      × Copied e 1 (mem ∷ []) (0 * e) vec (pos * 1) (n * e) out
  unfolding buffer_vec_copy_from_mem
  copy_from_mem_lem =
      rw elements_fit
        (buffer_vec_copy_vec_ex-Copied e 1 (mem ∷ []) 0 n vec pos (n * e) write-Request)

  -- Reading elements of a vector into a memory succeeds and fills its first `n` elements.
  pub copy_to_mem_lem :
      (out : BufferVec) × (buffer_vec_copy_to_mem vec pos mem 0 e n ≡ some (success, out))
      × Copied 1 e vec (pos * 1) (mem ∷ []) (0 * e) (n * e * 1) out
  unfolding buffer_vec_copy_to_mem
  copy_to_mem_lem =
      rw elements_fit
        (buffer_vec_copy_vec_ex-Copied 1 e vec pos (n * e) (mem ∷ []) 0 n read-Request)

-- Elements written from a memory into a vector of buffers at a position where they fit are read
-- back from there into another memory byte for byte; both calls succeed.
pub read-write :
    (e : ℕ) (mem : Buffer) (vec : BufferVec) (target : Buffer) (pos n : ℕ)
    → IsVec e (mem ∷ [])
    → IsVec 1 vec
    → IsVec e (target ∷ [])
    → 0 < n * e
    → n ≤ mem.len
    → n ≤ target.len
    → pos + n * e ≤ total (counts vec)
    → (written : BufferVec) × (read : BufferVec) × (buffer_vec_copy_from_mem vec pos mem 0 e n
        ≡ some (success, written))
      × (buffer_vec_copy_to_mem written pos target 0 e n ≡ some (success, read))
      × ((k : ℕ) → k < n * e → byte_at e read k ≡ byte_at e (mem ∷ []) k)
read-write e mem vec target pos n mem_ok vec_ok target_ok some_bytes in_mem in_target in_vec =
    let w = copy_from_mem_lem e mem mem_ok vec vec_ok pos n some_bytes in_mem in_vec in
    let written_ok : IsVec 1 w.0 = record {
      stored = w.2.stored;
      elements = rw w.2.lengths vec_ok.elements;
      sized = rw w.2.lengths vec_ok.sized;
    } in
    let r =
      copy_to_mem_lem e target target_ok w.0 written_ok pos n some_bytes in_target
        (rw w.2.lengths in_vec) in
    (w.0, r.0, w.1, r.1, λ k lt. ground (arith, r.2.moved k, w.2.moved k))
