-- ===== src/Moderation/Deadlines.antt =====
-- When a report is to be acknowledged: `acknowledgement_deadline`, `response_breached` and
-- `emergency_notice` of apps/api/src/talaqi/moderation/service.py. The loop takes fuel: four days
-- hold two business days.
use community_platform.Base.{
  ℕ, zero, suc, ◌+◌, ◌*◌, ◌/◌, ◌%◌, ◌≤◌, ◌<◌, ◌≡◌, ◌≢◌, refl, sym, ◌∙◌, ap, Bool-cases,
  Result-cases, Bool, true, false, ◌||◌, Option, none, some, leb, ltb, text_eq, if◌then◌else◌,
  Result, ok, err, arith, inl, inr, ◌⊎◌, indicator,
}
use community_platform.Errors.{Error, datetime_overflow, out_of_fuel}
use community_platform.Time.{add_delta, minute, max_instant}
use community_platform.Moderation.{Priority, standard, high, emergency, ModerationCase}

abbrev pub day : ℕ
day = 1440 * minute

-- `datetime.weekday`, where Monday is 0; 0001-01-01 was a Monday.
unfoldable pub weekday : ℕ → ℕ
weekday t = t / day % 7

-- `while remaining_business_days`
unfoldable pub deadline_loop : ℕ → ℕ → ℕ → Result Error ℕ
unfolding weekday add_delta
deadline_loop fuel zero deadline = ok deadline
deadline_loop zero (suc remaining) deadline = err out_of_fuel
deadline_loop (suc fuel) (suc remaining) deadline = elim (add_delta deadline day) [
  | none ↦ err datetime_overflow
  | some next ↦ deadline_loop fuel (if ltb (weekday next) 5 then remaining else suc remaining) next
]

abbrev pub or_overflow : Option ℕ → Result Error ℕ
or_overflow none = err datetime_overflow
or_overflow (some t) = ok t

unfoldable pub deadline_of : Priority → ℕ → Result Error ℕ
unfolding deadline_loop add_delta
deadline_of standard created_at = deadline_loop 4 2 created_at
deadline_of high created_at = or_overflow (add_delta created_at (240 * minute))
deadline_of emergency created_at = or_overflow (add_delta created_at (240 * minute))

-- `acknowledgement_deadline`
unfoldable pub acknowledgement_deadline : ModerationCase → Result Error ℕ
unfolding deadline_of
acknowledgement_deadline c = deadline_of c.priority c.created_at

-- `response_breached` at a time that is given or read
unfoldable pub response_breached : ModerationCase → ℕ → Result Error Bool
unfolding acknowledgement_deadline
response_breached c now = elim (acknowledgement_deadline c) [
  | err e ↦ err e
  | ok deadline ↦ elim c.acknowledged_at [
    | some t ↦ ok (ltb deadline t)
    | none ↦ ok (ltb deadline now)
  ]
]

abbrev is_emergency : Priority → Bool
is_emergency emergency = true
is_emergency _ = false

-- `emergency_notice`
unfoldable pub emergency_notice : ModerationCase → Bool
unfolding text_eq
emergency_notice c = text_eq c.category "safety" || is_emergency c.priority

-- How many of the next days, at the same time of day, are from Monday to Friday.
unfoldable pub business_days : ℕ → ℕ → ℕ
unfolding weekday
business_days zero t = 0
business_days (suc n) t = business_days n t + indicator (ltb (weekday (t + suc n * day)) 5)

-- A deadline some days later at the same time of day: it is a business day, and the second one.
pub record SecondBusinessDay (created_at deadline : ℕ) : Type 0 where
  pub days : ℕ
  pub later : deadline ≡ created_at + days * day
  pub soon : days ≤ 4
  pub weekday_lem : weekday deadline < 5
  pub second : business_days days created_at ≡ 2

weekday_next : (t : ℕ) → weekday (t + day) ≡ (weekday t + 1) % 7
unfolding weekday
weekday_next t = omega arith

business_days_next :
    (n t : ℕ)
    → business_days (suc n) t ≡ indicator (ltb (weekday (t + day)) 5) + business_days n (t + day)
unfolding business_days
business_days_next zero t = ground arith
business_days_next (suc n) t =
    let same : t + suc (suc n) * day ≡ t + day + suc n * day = omega arith in
    omega (arith, ap (λ u. indicator (ltb (weekday u) 5)) same, business_days_next n t)

-- A deadline some days later, on a business day, with a certain number of business days up to it.
record Reached (fuel remaining t deadline : ℕ) : Type 0 where
  days : ℕ
  later : deadline ≡ t + suc days * day
  soon : suc days ≤ fuel
  business : weekday deadline < 5
  counted : business_days (suc days) t ≡ remaining

business_days_zero : (t : ℕ) → business_days 0 t ≡ 0
unfolding business_days
business_days_zero t = refl

Reached-later :
    (fuel remaining t deadline : ℕ)
    → ltb (weekday (t + day)) 5 ≡ false
    → Reached fuel (suc remaining) (t + day) deadline
    → Reached (suc fuel) (suc remaining) t deadline
Reached-later fuel remaining t deadline e rest = record {
  days = suc rest.days;
  later = omega (arith, rest.later);
  soon = omega (arith, rest.soon);
  business = rest.business;
  counted = ground (arith, business_days_next (suc rest.days) t, rest.counted);
}

deadline_loop-Reached :
    (fuel remaining t deadline : ℕ)
    → deadline_loop fuel (suc remaining) t ≡ ok deadline
    → Reached fuel (suc remaining) t deadline
unfolding deadline_loop
deadline_loop-Reached zero remaining t deadline h = ground arith
deadline_loop-Reached (suc fuel) zero t deadline h = elim (Bool-cases (leb (t + day) max_instant)) [
  | inr e ↦ ground arith
  | inl e ↦ elim (Bool-cases (ltb (weekday (t + day)) 5)) [
    | inr e₁ ↦
        Reached-later fuel zero t deadline e₁
          (deadline_loop-Reached fuel zero (t + day) deadline (ground arith))
    | inl e₁ ↦
        let last : t + day ≡ deadline = ground arith in
        record {
          days = 0;
          later = omega (arith, last);
          soon = omega arith;
          business = ground (arith, ap weekday last);
          counted = ground (arith, business_days_next 0 t, business_days_zero (t + day));
        }
  ]
]
deadline_loop-Reached (suc fuel) (suc remaining) t deadline h =
    elim (Bool-cases (leb (t + day) max_instant)) [
      | inr e ↦ ground arith
      | inl e ↦ elim (Bool-cases (ltb (weekday (t + day)) 5)) [
        | inr e₁ ↦
            Reached-later fuel (suc remaining) t deadline e₁
              (deadline_loop-Reached fuel (suc remaining) (t + day) deadline (ground arith))
        | inl e₁ ↦
            let rest = deadline_loop-Reached fuel remaining (t + day) deadline (ground arith) in
            record {
              days = suc rest.days;
              later = omega (arith, rest.later);
              soon = omega (arith, rest.soon);
              business = rest.business;
              counted = ground (arith, business_days_next (suc rest.days) t, rest.counted);
            }
      ]
    ]

-- What the deadline is, by the priority.
pub data Deadline (created_at deadline : ℕ) : Priority → Type 0 where
  second_day : SecondBusinessDay created_at deadline → Deadline created_at deadline standard
  urgent_high : deadline ≡ created_at + 240 * minute → Deadline created_at deadline high
  urgent_emergency : deadline ≡ created_at + 240 * minute → Deadline created_at deadline emergency

-- Whether the loop ends within its fuel, by the weekday that it starts from.
ends : ℕ → ℕ → ℕ → Bool
ends fuel zero w = true
ends zero (suc remaining) w = false
ends (suc fuel) (suc remaining) w =
    ends fuel (if ltb ((w + 1) % 7) 5 then remaining else suc remaining) ((w + 1) % 7)

loop_step :
    (fuel remaining t : ℕ)
    → t + day ≤ max_instant
    → deadline_loop (suc fuel) (suc remaining) t
      ≡ deadline_loop fuel
          (if ltb (weekday (t + day)) 5 then remaining else suc remaining)
          (t + day)
unfolding deadline_loop
loop_step fuel remaining t h = ground arith

seven : (w : ℕ) → w < 7 → (w ≡ 0) ⊎ (w ≡ 1) ⊎ (w ≡ 2) ⊎ (w ≡ 3) ⊎ (w ≡ 4) ⊎ (w ≡ 5) ⊎ (w ≡ 6)
seven w h = ground arith

ends_lem :
    (fuel remaining t : ℕ) (e : Error)
    → ends fuel remaining (weekday t) ≡ true
    → t + fuel * day ≤ max_instant
    → deadline_loop fuel remaining t ≢ err e
unfolding ends
ends_lem fuel zero t e h l = unfold deadline_loop in λ k. cc
ends_lem zero (suc remaining) t e h l = cc
ends_lem (suc fuel) (suc remaining) t e h l =
    let left = if ltb (weekday (t + day)) 5 then remaining else suc remaining in
    λ k.
      ends_lem fuel left (t + day) e (rw (weekday_next t) h) (omega (arith, l))
        (sym (loop_step fuel remaining t (omega (arith, l))) ∙ k)

ends_four : (w : ℕ) → w < 7 → ends 4 2 w ≡ true
unfolding ends
ends_four w h = elim (seven w h) [
  | inl e ↦ rw e refl
  | inr (inl e) ↦ rw e refl
  | inr (inr (inl e)) ↦ rw e refl
  | inr (inr (inr (inl e))) ↦ rw e refl
  | inr (inr (inr (inr (inl e)))) ↦ rw e refl
  | inr (inr (inr (inr (inr (inl e))))) ↦ rw e refl
  | inr (inr (inr (inr (inr (inr e))))) ↦ rw e refl
]

weekday-lt : (t : ℕ) → weekday t < 7
unfolding weekday
weekday-lt t = omega arith

standard_lem :
    (t : ℕ)
    → t + 4 * day ≤ max_instant
    → (d : ℕ) × (deadline_loop 4 2 t ≡ ok d) × SecondBusinessDay t d
standard_lem t h = elim (Result-cases (deadline_loop 4 2 t)) [
  | inr (e, k) ↦ absurd (ends_lem 4 2 t e (ends_four (weekday t) (weekday-lt t)) h k)
  | inl (d, k) ↦
      let r = deadline_loop-Reached 4 1 t d k in
      (
        d,
        k,
        record {
          days = suc r.days;
          later = r.later;
          soon = r.soon;
          weekday_lem = r.business;
          second = r.counted;
        },
      )
]

deadline_of_lem :
    (p : Priority) (t : ℕ)
    → t + 4 * day ≤ max_instant
    → (d : ℕ) × (deadline_of p t ≡ ok d) × Deadline t d p
unfolding deadline_of
deadline_of_lem standard t h = let (d, k, s) = standard_lem t h in (d, k, second_day s)
deadline_of_lem high t h = (t + 240 * minute, ground arith, urgent_high refl)
deadline_of_lem emergency t h = (t + 240 * minute, ground arith, urgent_emergency refl)

-- A standard report is to be acknowledged at its own time of day on the second day from Monday to
-- Friday after it was made, which is at most four days later; an urgent one, four hours after it was
-- made. The loop always ends, where the four days do not pass the last datetime.
pub acknowledgement_deadline_lem :
    (c : ModerationCase)
    → c.created_at + 4 * day ≤ max_instant
    → (d : ℕ) × (acknowledgement_deadline c ≡ ok d) × Deadline c.created_at d c.priority
unfolding acknowledgement_deadline
acknowledgement_deadline_lem c h = deadline_of_lem c.priority c.created_at h
