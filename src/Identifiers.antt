-- ===== src/Identifiers.antt =====
-- UUIDv7 identifiers: apps/api/src/talaqi/db/identifiers.py. A UUID is its 128-bit integer.
mod Examples
use community_platform.Base.{
  ℕ, ◌+◌, ◌-◌, ◌*◌, ◌/◌, ◌%◌, ◌^◌, ◌<◌, ◌≡◌, Bool, true, Option, none, some, arith, leb, ◌==◌,
  if◌then◌else◌,
}

-- What one call reads: the system time in milliseconds, and two draws of random bits.
pub record Entropy : Type 0 where
  pub milliseconds : ℕ
  pub rand_a : ℕ
  pub rand_b : ℕ

abbrev max_uuid7_milliseconds : ℕ
max_uuid7_milliseconds = 2 ^ 48 - 1

-- The fields that the code joins by `|=` do not overlap, so they are added here. `none` is the
-- RuntimeError on a system time out of range.
unfoldable pub generate_uuid7 : Entropy → Option ℕ
generate_uuid7 e =
    if leb e.milliseconds max_uuid7_milliseconds
    then some (e.milliseconds * 2 ^ 80 + 7 * 2 ^ 76 + e.rand_a * 2 ^ 64 + 2 * 2 ^ 62 + e.rand_b)
    else none

-- `UUID.version`: the version digit, where the variant bits are those of RFC 4122.
unfoldable pub version : ℕ → Option ℕ
version u = if (u / 2 ^ 62) % 4 == 2 then some ((u / 2 ^ 76) % 16) else none

-- `validate_uuid7` of a UUID: whether it returns.
unfoldable pub validate_uuid7 : ℕ → Bool
unfolding version
validate_uuid7 u = elim (version u) [ none ↦ Bool.false | some v ↦ v == 7 ]

-- The draws are in range, as `secrets.randbits(12)` and `secrets.randbits(62)` are.
pub record IsDrawn (e : Entropy) : Type 0 where
  pub rand_a_bits : e.rand_a < 2 ^ 12
  pub rand_b_bits : e.rand_b < 2 ^ 62

generated_fields :
    (m a b : ℕ)
    → a < 2 ^ 12
    → b < 2 ^ 62
    → let u = m * 2 ^ 80 + 7 * 2 ^ 76 + a * 2 ^ 64 + 2 * 2 ^ 62 + b in
      ((u / 2 ^ 62) % 4 ≡ 2) × ((u / 2 ^ 76) % 16 ≡ 7) × (u / 2 ^ 80 ≡ m)
generated_fields m a b ha hb = omega arith

-- Every identifier that `generate_uuid7` returns fits in 128 bits, is accepted by
-- `validate_uuid7`, and carries the system time in its 48 high bits.
pub generate_uuid7_lem :
    (e : Entropy) (u : ℕ)
    → IsDrawn e
    → generate_uuid7 e ≡ some u
    → (validate_uuid7 u ≡ true) × (u < 2 ^ 128) × (u / 2 ^ 80 ≡ e.milliseconds)
unfolding generate_uuid7 validate_uuid7
generate_uuid7_lem e u d h =
    ground (arith, generated_fields e.milliseconds e.rand_a e.rand_b d.rand_a_bits d.rand_b_bits)

-- Identifiers that are generated at a later millisecond are larger, so the order by identifier is
-- the order of creation down to the millisecond.
pub generate_uuid7-lt :
    (e f : Entropy) (u v : ℕ)
    → IsDrawn e
    → IsDrawn f
    → e.milliseconds < f.milliseconds
    → generate_uuid7 e ≡ some u
    → generate_uuid7 f ≡ some v
    → u < v
generate_uuid7-lt e f u v d d' h p q =
    omega (arith, generate_uuid7_lem e u d p, generate_uuid7_lem f v d' q)
