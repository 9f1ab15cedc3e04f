-- ===== src/Message/Header/Flags.antt =====
-- The flags that a version-4 header is planned with: each one is set where its group is wanted,
-- and no other flag.
use robotraconteurlite.Prelude.{
  ℕ, ◌<◌, ◌≡◌, refl, Bool, true, false, not, ◌&&◌, arith, ltb, if◌then◌else◌, bit_and, bit_or,
}
use robotraconteurlite.Message.Header.{
  flags_check, flag_routing_info, flag_endpoint_info, flag_priority, flag_unreliable,
  flag_meta_info, flag_string_table, flag_multiple_entries, flag_extended,
}

abbrev pub set_flag : Bool → ℕ → ℕ → ℕ
set_flag b mask flags = if b then bit_or flags mask else flags

-- The last line is the one on UNRELIABLE.
abbrev pub planned_flags : Bool → Bool → Bool → Bool → Bool → ℕ
planned_flags routing endpoint priority meta entries =
    let flags = set_flag entries flag_multiple_entries (
      set_flag meta flag_meta_info (
        set_flag priority flag_priority
          (set_flag endpoint flag_endpoint_info (set_flag routing flag_routing_info 0)))) in
    bit_or flags (bit_and (bit_and 255 flag_unreliable) flags)

abbrev same : Bool → Bool → Bool
same a b = if a then b else not b

same_sound : (a b : Bool) → same a b ≡ true → a ≡ b
same_sound true true h = refl
same_sound true false h = ground arith
same_sound false true h = ground arith
same_sound false false h = refl

and_left : (a b : Bool) → (a && b) ≡ true → a ≡ true
and_left true b h = refl
and_left false b h = h

and_right : (a b : Bool) → (a && b) ≡ true → b ≡ true
and_right true b h = h
and_right false b h = ground arith

-- A test that both values pass.
abbrev both : (Bool → Bool) → Bool
both f = f true && f false

both_sound : (f : Bool → Bool) → both f ≡ true → (b : Bool) → f b ≡ true
both_sound f h true = and_left (f true) (f false) h
both_sound f h false = and_right (f true) (f false) h

-- A test of the five wishes that they all pass.
abbrev Test : Type 0
Test = Bool → Bool → Bool → Bool → Bool → Bool

abbrev always : Test → Bool
always t = both (λ r. both (λ e. both (λ p. both (λ m. both (λ n. t r e p m n)))))

always_sound : (t : Test) → always t ≡ true → (r e p m n : Bool) → t r e p m n ≡ true
always_sound t h r e p m n =
    both_sound (λ n'. t r e p m n')
      (both_sound (λ m'. both (λ n'. t r e p m' n'))
        (both_sound (λ p'. both (λ m'. both (λ n'. t r e p' m' n')))
          (both_sound (λ e'. both (λ p'. both (λ m'. both (λ n'. t r e' p' m' n'))))
            (both_sound (λ r'. both (λ e'. both (λ p'. both (λ m'. both (λ n'. t r' e' p' m' n')))))
              h r)
            e)
          p)
        m)
      n

-- The flag `mask` of the planned flags is the wish `w`.
abbrev flag_is : ℕ → Test → Test
flag_is mask w r e p m n = same (flags_check (planned_flags r e p m n) mask) (w r e p m n)

module _ (r e p m n : Bool) where
  flag_is_sound :
      (mask : ℕ) (w : Test)
      → always (flag_is mask w) ≡ true
      → flags_check (planned_flags r e p m n) mask ≡ w r e p m n
  flag_is_sound mask w h = same_sound _ _ (always_sound (flag_is mask w) h r e p m n)

  pub planned_flags_lem :
      (flags_check (planned_flags r e p m n) flag_routing_info ≡ r)
      × (flags_check (planned_flags r e p m n) flag_endpoint_info ≡ e)
      × (flags_check (planned_flags r e p m n) flag_priority ≡ p)
      × (flags_check (planned_flags r e p m n) flag_meta_info ≡ m)
      × (flags_check (planned_flags r e p m n) flag_multiple_entries ≡ n)
      × (flags_check (planned_flags r e p m n) flag_string_table ≡ false)
      × (flags_check (planned_flags r e p m n) flag_extended ≡ false)
      × (planned_flags r e p m n < 256)
  planned_flags_lem = (
    flag_is_sound flag_routing_info (λ r' e' p' m' n'. r') refl,
    flag_is_sound flag_endpoint_info (λ r' e' p' m' n'. e') refl,
    flag_is_sound flag_priority (λ r' e' p' m' n'. p') refl,
    flag_is_sound flag_meta_info (λ r' e' p' m' n'. m') refl,
    flag_is_sound flag_multiple_entries (λ r' e' p' m' n'. n') refl,
    flag_is_sound flag_string_table (λ r' e' p' m' n'. false) refl,
    flag_is_sound flag_extended (λ r' e' p' m' n'. false) refl,
    small (always_sound (λ r' e' p' m' n'. ltb (planned_flags r' e' p' m' n') 256) refl r e p m n),
  )
    where
      small : {k : ℕ} → ltb k 256 ≡ true → k < 256
      small h = ground arith

  pub planned_unreliable : flags_check (planned_flags r e p m n) flag_unreliable ≡ false
  planned_unreliable = flag_is_sound flag_unreliable (λ r' e' p' m' n'. false) refl
