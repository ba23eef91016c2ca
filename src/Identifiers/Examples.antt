-- ===== src/Identifiers/Examples.antt =====
-- Identifiers that are generated at concrete times and draws.
use community_platform.Base.{ℕ, ◌*◌, ◌+◌, ◌^◌, ◌/◌, ◌<◌, ◌≡◌, refl, true, some, arith}
use community_platform.Identifiers.{
  Entropy, generate_uuid7, validate_uuid7, IsDrawn, generate_uuid7_lem, generate_uuid7-lt,
}

abbrev draw : ℕ → Entropy
draw t = record { milliseconds = t; rand_a = 5; rand_b = 9 }

abbrev uuid_of : ℕ → ℕ
uuid_of t = t * 2 ^ 80 + 7 * 2 ^ 76 + 5 * 2 ^ 64 + 2 * 2 ^ 62 + 9

draw-IsDrawn : (t : ℕ) → IsDrawn (draw t)
draw-IsDrawn t = record { rand_a_bits = omega arith; rand_b_bits = omega arith }

drawn : generate_uuid7 (draw 1700000000000) ≡ some (uuid_of 1700000000000)
unfolding generate_uuid7
drawn = refl

drawn_later : generate_uuid7 (draw 1700000000001) ≡ some (uuid_of 1700000000001)
unfolding generate_uuid7
drawn_later = refl

generate_uuid7_lem_example :
    (validate_uuid7 (uuid_of 1700000000000) ≡ true)
    × (uuid_of 1700000000000 < 2 ^ 128)
    × (uuid_of 1700000000000 / 2 ^ 80 ≡ 1700000000000)
generate_uuid7_lem_example =
    generate_uuid7_lem (draw 1700000000000) (uuid_of 1700000000000) (draw-IsDrawn 1700000000000)
      drawn

generate_uuid7-lt_example : uuid_of 1700000000000 < uuid_of 1700000000001
generate_uuid7-lt_example =
    generate_uuid7-lt (draw 1700000000000) (draw 1700000000001) (uuid_of 1700000000000)
      (uuid_of 1700000000001) (draw-IsDrawn 1700000000000) (draw-IsDrawn 1700000000001)
      (omega arith) drawn drawn_later
