-- ===== src/Message/Steps.antt =====
-- Readers and writers that are run one after the other, as the functions of src/message.c run them:
-- the first one that fails ends the run with its status.
use robotraconteurlite.Prelude.{
  ℕ, ◌+◌, ◌≤◌, ◌≡◌, refl, ap, ◌∙◌, Bool, true, false, Option, some, List, [], ◌∷◌, ◌++◌, arith,
  if◌then◌else◌, ◌>>=◌, length, length-append, joined,
}
use robotraconteurlite.Status.{Status, success, failed}
use robotraconteurlite.Array.{BufferVec}
use robotraconteurlite.Array.Layout.{total, counts, IsVec}
use robotraconteurlite.Array.Holds.{
  HoldsAt, Written, Written-append, Written-nothing, HoldsAt-left, HoldsAt-right,
}
use robotraconteurlite.Message.Numbers.{Read, Write, ◌then_write◌}
use robotraconteurlite.Message.Numbers.Fields.{Wrote}

-- A reader step works on the offset and on what has been read so far.
abbrev pub Step : Type 0 → Type 0
Step S = BufferVec → ℕ → S → Option (Status × ℕ × S)

module _ {S : Type 0} where
  abbrev pub next_step :
      Option (Status × ℕ × S) → (ℕ → S → Option (Status × ℕ × S)) → Option (Status × ℕ × S)
  next_step r k = r >>= λ t. if failed t.0 then some t else k t.1 t.2

  abbrev pub run : List (Step S) → Step S
  run [] vec o s = some (success, o, s)
  run (f ∷ fs) vec o s = next_step (f vec o s) (λ o' s'. run fs vec o' s')

  -- A number is read into a field of `s`.
  abbrev pub into : Read → (ℕ → S) → Option (Status × ℕ × S)
  into r put = r >>= λ t. some (t.0, t.1, put t.2)

  -- The steps read the bytes that stand one after the other.
  pub data Reads (vec : BufferVec) : List (Step S) → ℕ → List (List ℕ) → S → S → Type 0 where
    done : {o : ℕ} {s : S} → Reads vec [] o [] s s
    one :
        {f : Step S} {fs : List (Step S)} {o : ℕ} {xs : List ℕ} {xss : List (List ℕ)} {s t u : S}
        → f vec o s ≡ some (success, o + length xs, t)
        → Reads vec fs (o + length xs) xss t u
        → Reads vec (f ∷ fs) o (xs ∷ xss) s u
    -- A step that reads nothing.
    pass :
        {f : Step S} {fs : List (Step S)} {o : ℕ} {xss : List (List ℕ)} {s t u : S}
        → f vec o s ≡ some (success, o, t)
        → Reads vec fs o xss t u
        → Reads vec (f ∷ fs) o xss s u

  infixr 4 ◌and_then◌
  abbrev pub ◌and_then◌ :
      {vec : BufferVec} {f : Step S} {fs : List (Step S)} {o : ℕ} {xs : List ℕ}
      {xss : List (List ℕ)} {s t u : S}
      → f vec o s ≡ some (success, o + length xs, t)
      → Reads vec fs (o + length xs) xss t u
      → Reads vec (f ∷ fs) o (xs ∷ xss) s u
  e and_then r = one e r

  pub run-Reads :
      {vec : BufferVec} {fs : List (Step S)} {o : ℕ} {xss : List (List ℕ)} {s u : S}
      → Reads vec fs o xss s u
      → run fs vec o s ≡ some (success, o + length (joined xss), u)
  run-Reads (done {o} {s}) = let e : o ≡ o + 0 = omega arith in ap (λ k. some (success, k, s)) e
  run-Reads {vec} (one {f} {fs} {o} {xs} {xss} {s} {t} {u} e r) =
      let at : o + length xs + length (joined xss) ≡ o + length (xs ++ joined xss) =
        omega (arith, length-append xs (joined xss)) in
      rw e (run-Reads r ∙ ap (λ k. some (success, k, u)) at)
  run-Reads (pass e r) = rw e (run-Reads r)

-- The bytes of a list of runs.
abbrev pub lengths : List (List ℕ) → ℕ
lengths [] = 0
lengths (xs ∷ xss) = length xs + lengths xss

pub length-joined : (xss : List (List ℕ)) → length (joined xss) ≡ lengths xss
length-joined [] = refl
length-joined (xs ∷ xss) = omega (arith, length-append xs (joined xss), length-joined xss)

-- Bytes that stand one after the other, each with its offset.
abbrev pub HoldsAll : BufferVec → ℕ → List (List ℕ) → Type 0
HoldsAll vec o [] = Unit {0}
HoldsAll vec o (xs ∷ xss) = HoldsAt vec o xs × HoldsAll vec (o + length xs) xss

pub HoldsAt-joined :
    (vec : BufferVec) (o : ℕ) (xss : List (List ℕ))
    → HoldsAt vec o (joined xss)
    → HoldsAll vec o xss
HoldsAt-joined vec o [] h = tt
HoldsAt-joined vec o (xs ∷ xss) h = (
  HoldsAt-left vec o xs (joined xss) h,
  HoldsAt-joined vec (o + length xs) xss (HoldsAt-right vec o xs (joined xss) h),
)

abbrev pub Writer : Type 0
Writer = BufferVec → ℕ → Write

abbrev pub write_all : List Writer → Writer
write_all [] vec o = some (success, vec, o)
write_all (w ∷ ws) vec o = w vec o then_write (λ v k. write_all ws v k)

-- A writer puts the bytes `xs` at its offset, wherever they fit.
abbrev pub Puts : Writer → List ℕ → Type 0
Puts w xs =
    (vec : BufferVec) (o : ℕ)
    → IsVec 1 vec
    → o + length xs ≤ total (counts vec)
    → Wrote vec o xs (w vec o)

pub data PutsAll : List Writer → List (List ℕ) → Type 0 where
  puts_nothing : PutsAll [] []
  puts_one :
      {w : Writer} {ws : List Writer} {xs : List ℕ} {xss : List (List ℕ)}
      → Puts w xs
      → PutsAll ws xss
      → PutsAll (w ∷ ws) (xs ∷ xss)

infixr 4 ◌and_puts◌
abbrev pub ◌and_puts◌ :
    {w : Writer} {ws : List Writer} {xs : List ℕ} {xss : List (List ℕ)}
    → Puts w xs
    → PutsAll ws xss
    → PutsAll (w ∷ ws) (xs ∷ xss)
p and_puts q = puts_one p q

-- One writer after another.
pub Wrote-append :
    (vec : BufferVec) (offset : ℕ) (xs ys : List ℕ) (w : Write) (k : BufferVec → ℕ → Write)
    → Wrote vec offset xs w
    → ((mid : BufferVec)
        → Written vec offset xs mid
        → Wrote mid (offset + length xs) ys (k mid (offset + length xs)))
    → Wrote vec offset (xs ++ ys) (w then_write k)
Wrote-append vec offset xs ys w k (mid, e, z) next =
    let (out, f, y) = next mid z in
    let at : offset + length xs + length ys ≡ offset + length (xs ++ ys) =
      omega (arith, length-append xs ys) in
    (
      out,
      rw e (f ∙ ap (λ o. some (success, out, o)) at),
      Written-append vec offset xs mid ys out z y,
    )

pub then_write-Puts :
    (w z : Writer) (xs ys : List ℕ)
    → Puts w xs
    → Puts z ys
    → Puts (λ vec o. w vec o then_write z) (xs ++ ys)
then_write-Puts w z xs ys first second vec o ok fits =
    let n = length-append xs ys in
    Wrote-append vec o xs ys (w vec o) z (first vec o ok (omega (arith, n)))
      (λ mid y. second mid (o + length xs) y.holds.ok (rw y.lengths (omega (arith, n))))

-- Nothing is written.
abbrev pub write_nothing : Writer
write_nothing vec o = some (success, vec, o)

pub write_nothing-Puts : Puts write_nothing []
write_nothing-Puts vec o ok fits =
    let e : o ≡ o + 0 = omega arith in
    (vec, ap (λ k. some (success, vec, k)) e, Written-nothing vec o ok (omega arith))

pub write_all-Puts :
    {ws : List Writer} {xss : List (List ℕ)} → PutsAll ws xss → Puts (write_all ws) (joined xss)
write_all-Puts puts_nothing = write_nothing-Puts
write_all-Puts (puts_one {w} {ws} {xs} {xss} h hs) =
    then_write-Puts w (write_all ws) xs (joined xss) h (write_all-Puts hs)

-- Steps that run under a condition; `other` is what happens without them.
abbrev pub choose : {S : Type 0} → Bool → List (Step S) → (S → S) → Step S
choose b fs other vec o s = if b then run fs vec o s else some (success, o, other s)

abbrev pub write_when : Bool → List Writer → Writer
write_when b ws vec o = if b then write_all ws vec o else some (success, vec, o)

abbrev pub bytes_when : Bool → List (List ℕ) → List ℕ
bytes_when b xss = if b then joined xss else []

pub write_when-Puts :
    (b : Bool) (ws : List Writer) (xss : List (List ℕ))
    → (b ≡ true → PutsAll ws xss)
    → Puts (write_when b ws) (bytes_when b xss)
write_when-Puts true ws xss h = write_all-Puts (h refl)
write_when-Puts false ws xss h = write_nothing-Puts
