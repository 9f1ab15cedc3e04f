-- ===== src/Connection/Attach/Wake.antt =====
-- When a connection wants the node to wake.
use robotraconteurlite.Prelude.{
  ◌≡◌, refl, ap, true, false, ◌&&◌, ◌||◌, arith, Bool-cases, ◌⊎◌, inl, inr,
}
use robotraconteurlite.Prelude.Int.{ℤ, pos, negsuc, ltb_int}
use robotraconteurlite.Status.{success}
use robotraconteurlite.Connection.Types.{Connection}
use robotraconteurlite.Connection.Attach.{next_wake, earlier, is_zero_int}

-- `a` is no later than `b`.
abbrev pub NotLater : ℤ → ℤ → Type 0
NotLater a b = ltb_int b a ≡ false

NotLater-refl : (a : ℤ) → NotLater a a
NotLater-refl (pos n) = ground arith
NotLater-refl (negsuc n) = ground arith

NotLater-trans : (a b c : ℤ) → NotLater a b → NotLater b c → NotLater a c
NotLater-trans (pos a) (pos b) (pos c) h g = ground arith
NotLater-trans (pos a) (pos b) (negsuc c) h g = absurd (ground arith)
NotLater-trans (pos a) (negsuc b) c h g = absurd (ground arith)
NotLater-trans (negsuc a) (pos b) (pos c) h g = refl
NotLater-trans (negsuc a) (pos b) (negsuc c) h g = absurd (ground arith)
NotLater-trans (negsuc a) (negsuc b) (pos c) h g = refl
NotLater-trans (negsuc a) (negsuc b) (negsuc c) h g = ground arith

NotLater-of_lt : (a b : ℤ) → ltb_int a b ≡ true → NotLater a b
NotLater-of_lt (pos a) (pos b) h = ground arith
NotLater-of_lt (pos a) (negsuc b) h = absurd (ground arith)
NotLater-of_lt (negsuc a) (pos b) h = refl
NotLater-of_lt (negsuc a) (negsuc b) h = ground arith

earlier_lem : (t w : ℤ) → NotLater (earlier t w) t × NotLater (earlier t w) w
earlier_lem t w = elim (Bool-cases (ltb_int t w)) [
  | inl h ↦ simp h (NotLater-refl t, NotLater-of_lt t w h)
  | inr h ↦ simp h (refl, NotLater-refl w)
]

-- For a connection that is not idle, next_wake succeeds with the time now, or with a time no
-- later than the one given and no later than the heartbeat check and the wake time of the
-- transport where those are set.
pub next_wake-NotLater :
    (c : Connection) (now wake : ℤ)
    → c.connection_state.idle ≡ false
    → ((next_wake c now wake).0 ≡ success)
      × (((next_wake c now wake).1 ≡ now)
          ⊎ (NotLater (next_wake c now wake).1 wake
              × ((ltb_int (pos 0) c.heartbeat_next_check_us ≡ false)
                  ⊎ NotLater (next_wake c now wake).1 c.heartbeat_next_check_us)
              × ((ltb_int (pos 0) c.transport_next_wake ≡ false)
                  ⊎ NotLater (next_wake c now wake).1 c.transport_next_wake)))
unfolding next_wake
next_wake-NotLater c now wake live =
    let hb = c.heartbeat_next_check_us in
    let tw = c.transport_next_wake in
    let s = c.connection_state in
    elim (Bool-cases ((s.close_requested || s.error) || s.message_sent || s.message_received)) [
      | inl urgent ↦ (ground arith, inl (ground arith))
      | inr calm ↦ elim (Bool-cases (ltb_int (pos 0) hb)) [
        | inl beat ↦
            elim (Bool-cases
              (ltb_int hb now || (is_zero_int hb && ltb_int (pos 0) c.heartbeat_period_ms))) [
                | inl due ↦ (ground arith, inl (ground arith))
                | inr not_due ↦ elim (Bool-cases (ltb_int (pos 0) tw)) [
                  | inl set ↦
                      let r = earlier tw (earlier hb wake) in
                      let e : next_wake c now wake ≡ (success, r) = ground arith in
                      let (a, b) = earlier_lem tw (earlier hb wake) in
                      let (x, y) = earlier_lem hb wake in
                      (
                        ap (λ t. t.0) e,
                        inr (
                            rw e (
                              NotLater-trans r (earlier hb wake) wake b y,
                              inr (NotLater-trans r (earlier hb wake) hb b x),
                              inr a,
                            )),
                      )
                  | inr unset ↦
                      let e : next_wake c now wake ≡ (success, earlier hb wake) = ground arith in
                      let (x, y) = earlier_lem hb wake in
                      (ap (λ t. t.0) e, inr (rw e (y, inr x, inl unset)))
                ]
              ]
        | inr no_beat ↦ elim (Bool-cases (ltb_int (pos 0) tw)) [
          | inl set ↦
              let e : next_wake c now wake ≡ (success, earlier tw wake) = ground arith in
              let (a, b) = earlier_lem tw wake in
              (ap (λ t. t.0) e, inr (rw e (b, inl no_beat, inr a)))
          | inr unset ↦
              let e : next_wake c now wake ≡ (success, wake) = ground arith in
              (ap (λ t. t.0) e, inr (rw e (NotLater-refl wake, inl no_beat, inl unset)))
        ]
      ]
    ]
