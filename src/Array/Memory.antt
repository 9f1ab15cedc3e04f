-- ===== src/Array/Memory.antt =====
-- What `memcpy` leaves in the destination, byte by byte.
use robotraconteurlite.Prelude.{
  ℕ, ◌+◌, ◌-◌, ◌≤◌, ◌≡◌, List, ◌++◌, some, arith, length, get_elem?, take, drop, length-append,
  length-take, length-drop, get_elem?-append, get_elem?-take, get_elem?-drop, ltb, if◌then◌else◌,
}
use robotraconteurlite.Array.{memcpy}

-- The destination after a copy that stays within both objects.
abbrev pub spliced : List ℕ → ℕ → List ℕ → ℕ → ℕ → List ℕ
spliced dest dp source sp n = take dp dest ++ (take n (drop sp source) ++ drop (dp + n) dest)

module _ (dest : List ℕ) (dp : ℕ) (source : List ℕ) (sp n : ℕ) where
  pub memcpy-eq-spliced :
      dp + n ≤ length dest
      → sp + n ≤ length source
      → memcpy dest dp source sp n ≡ some (spliced dest dp source sp n)
  unfolding memcpy
  memcpy-eq-spliced hd hs = ground arith

  module _ (hd : dp + n ≤ length dest) (hs : sp + n ≤ length source) where
    pub length-spliced : length (spliced dest dp source sp n) ≡ length dest
    length-spliced = omega (
      arith,
      length-append (take dp dest) (take n (drop sp source) ++ drop (dp + n) dest),
      length-append (take n (drop sp source)) (drop (dp + n) dest),
      length-take dp dest,
      length-take n (drop sp source),
      length-drop sp source,
      length-drop (dp + n) dest,
    )

    pub get_elem?-spliced :
        (j : ℕ)
        → get_elem? (spliced dest dp source sp n) j ≡ (
            if ltb j dp
            then get_elem? dest j
            else if ltb j (dp + n)
            then get_elem? source (sp + (j - dp))
            else get_elem? dest j)
    get_elem?-spliced j = ground (
      arith,
      get_elem?-append (take dp dest) (take n (drop sp source) ++ drop (dp + n) dest) j,
      get_elem?-append (take n (drop sp source)) (drop (dp + n) dest) (j - dp),
      get_elem?-take dp dest j,
      get_elem?-take n (drop sp source) (j - dp),
      get_elem?-drop sp source (j - dp),
      get_elem?-drop (dp + n) dest (j - dp - n),
      length-take dp dest,
      length-take n (drop sp source),
      length-drop sp source,
    )
