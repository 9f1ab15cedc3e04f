-- ===== src/Array/Copied.antt =====
-- What a copy between vectors of buffers has done, and two copies one after the other.
use robotraconteurlite.Prelude.{
  ℕ, ◌+◌, ◌-◌, ◌≤◌, ◌<◌, ◌≡◌, refl, ◌∙◌, arith, ltb, ◌⊎◌, inl, inr, Bool-cases,
}
use robotraconteurlite.Array.{BufferVec}
use robotraconteurlite.Array.Layout.{lens, counts, IsStored, byte_at}

-- `out` is `dest` with the `n` bytes at `from` of the source put at `to`; no buffer changes its
-- length or loses memory.
pub record Copied (se de : ℕ) (source : BufferVec) (from : ℕ) (dest : BufferVec) (to n : ℕ)
    (out : BufferVec) : Type 0 where
  pub moved : (k : ℕ) → k < n → byte_at de out (to + k) ≡ byte_at se source (from + k)
  pub kept : (j : ℕ) → (j < to) ⊎ (to + n ≤ j) → byte_at de out j ≡ byte_at de dest j
  pub shape : lens de out ≡ lens de dest
  pub lengths : counts out ≡ counts dest
  pub stored : IsStored de out

-- A copy followed by the copy of the next run.
pub Copied-trans :
    (se de : ℕ) (source : BufferVec) (from : ℕ) (dest : BufferVec) (to n : ℕ) (mid : BufferVec)
    (m : ℕ) (out : BufferVec)
    → Copied se de source from dest to n mid
    → Copied se de source (from + n) mid (to + n) m out
    → Copied se de source from dest to (n + m) out
Copied-trans se de source from dest to n mid m out a b = record {
  moved = λ k lt. elim (Bool-cases (ltb k n)) [
    | inl early ↦ b.kept (to + k) (inl (ground arith)) ∙ a.moved k (ground arith)
    | inr late ↦ ground (arith, b.moved (k - n))
  ];
  kept = λ j away. elim away [
    | inl h ↦ b.kept j (inl (omega arith)) ∙ a.kept j (inl h)
    | inr h ↦ b.kept j (inr (omega arith)) ∙ a.kept j (inr (omega arith))
  ];
  shape = b.shape ∙ a.shape;
  lengths = b.lengths ∙ a.lengths;
  stored = b.stored;
}

-- Copying nothing.
pub Copied-zero :
    (se de : ℕ) (source : BufferVec) (from : ℕ) (dest : BufferVec) (to : ℕ)
    → IsStored de dest
    → Copied se de source from dest to 0 dest
Copied-zero se de source from dest to s = record {
  moved = λ k lt. elim lt [ ];
  kept = λ j away. refl;
  shape = refl;
  lengths = refl;
  stored = s;
}
