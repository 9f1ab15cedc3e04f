-- ===== src/Message/Numbers/Tests.antt =====
-- Numbers in two small buffers, and the theorems at inputs that meet their hypotheses.
use robotraconteurlite.Prelude.{ℕ, ◌+◌, ◌<◌, ◌≤◌, ◌≡◌, length, none, some, [], ◌∷◌, arith, ◌⊎◌}
use robotraconteurlite.Status.{success, out_of_range}
use robotraconteurlite.Array.{BufferVec}
use robotraconteurlite.Array.Layout.{IsVec}
use robotraconteurlite.Message.Numbers.{
  message_write_uint_x, message_read_uint_x, message_uint_x_size, message_write_padded_uint_x,
  message_padded_uint_x_size, message_write_padded_uint_x_val, message_len_plus_uint_x, uint32_max,
}
use robotraconteurlite.Message.Numbers.RoundTrip.{
  message_read_uint_x-write, message_read_uint_x-padded, message_len_plus_uint_x_lem,
}
use robotraconteurlite.Message.Numbers.Refusals.{message_read_uint_x_beyond}
use robotraconteurlite.Message.Numbers.Codec.{encoded_uint_x, message_uint_x_size-length}

abbrev two_buffers : BufferVec
two_buffers =
    record { bytes = 0 ∷ 0 ∷ []; len = 2 } ∷ record { bytes = 0 ∷ 0 ∷ 0 ∷ 0 ∷ 0 ∷ []; len = 5 } ∷ []

two_buffers-IsVec : IsVec 1 two_buffers
two_buffers-IsVec = omega arith

-- 1000 is 253, 232, 3 and stands across the two buffers.
message_read_uint_x-write_example :
    (out : BufferVec) × (message_write_uint_x two_buffers 1 1000 ≡ some (success, out, 4))
    × (message_read_uint_x out 1 0 ≡ some (success, 4, 1000))
unfolding message_uint_x_size
message_read_uint_x-write_example =
    message_read_uint_x-write two_buffers 1 1000 0 two_buffers-IsVec (omega arith) (omega arith)

message_read_uint_x-padded_example :
    (mid out : BufferVec) × (message_write_padded_uint_x two_buffers 1 0
      ≡ some ((success, mid, 6), some 2))
    × (message_write_padded_uint_x_val mid 2 7 ≡ some (success, out))
    × (message_read_uint_x out 1 0 ≡ some (success, 6, 7))
unfolding message_padded_uint_x_size
message_read_uint_x-padded_example =
    message_read_uint_x-padded two_buffers 1 0 7 0 two_buffers-IsVec (omega arith) (omega arith)

message_len_plus_uint_x_lem_example :
    ((10 + 5 ≤ uint32_max)
      × ((n : ℕ) × (message_len_plus_uint_x 10 ≡ (success, some (10 + n, n)))
          × (message_uint_x_size (10 + n) ≡ (success, n))))
    ⊎ ((uint32_max < 10 + 5) × (message_len_plus_uint_x 10 ≡ (out_of_range, none)))
message_len_plus_uint_x_lem_example = message_len_plus_uint_x_lem 10

message_uint_x_size-length_example :
    message_uint_x_size 300 ≡ (success, length (encoded_uint_x 300))
message_uint_x_size-length_example = message_uint_x_size-length 300

message_read_uint_x_beyond_example : message_read_uint_x two_buffers 7 5 ≡ some (out_of_range, 7, 5)
message_read_uint_x_beyond_example =
    message_read_uint_x_beyond two_buffers two_buffers-IsVec 7 5 (omega arith) (omega arith)
