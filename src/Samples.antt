-- ===== src/Samples.antt =====
-- Dates for the tests: a few texts and the instants that they stand for, counted from an early one.
use legacy_vault.Base.{
  ℕ, ◌+◌, ◌*◌, String, Option, none, some, if◌then◌else◌, ◌==◌, string_eq, nat_eq, Dates,
}

abbrev pub hour : ℕ
hour = 60 * 60 * 1_000

abbrev pub day_one : ℕ
day_one = 1_000 * hour

-- Noon and one o'clock of the first day of 2026, and noon of the days after it.
abbrev parse_sample : String → Option ℕ
parse_sample text =
    if text == "2026-01-01T12:00:00.000Z"
    then some day_one
    else (if text == "2026-01-01T12:10:00.000Z"
        then some (day_one + 10 * 60 * 1_000)
        else (if text == "2026-01-01T13:00:00.000Z"
            then some (day_one + hour)
            else (if text == "2026-01-03T12:00:00.000Z"
                then some (day_one + 48 * hour)
                else (if text == "2026-01-04T12:00:00.000Z"
                    then some (day_one + 72 * hour)
                    else none))))

abbrev print_sample : ℕ → String
print_sample t =
    if t == day_one
    then "2026-01-01T12:00:00.000Z"
    else (if t == day_one + 10 * 60 * 1_000
        then "2026-01-01T12:10:00.000Z"
        else (if t == day_one + hour
            then "2026-01-01T13:00:00.000Z"
            else (if t == day_one + 48 * hour
                then "2026-01-03T12:00:00.000Z"
                else "2026-01-04T12:00:00.000Z")))

abbrev pub sample_dates : Dates
sample_dates = record { parse = parse_sample; print = print_sample }

abbrev pub noon : String
noon = "2026-01-01T12:00:00.000Z"

abbrev pub ten_past : String
ten_past = "2026-01-01T12:10:00.000Z"

abbrev pub one_oclock : String
one_oclock = "2026-01-01T13:00:00.000Z"

abbrev pub third_day : String
third_day = "2026-01-03T12:00:00.000Z"

abbrev pub fourth_day : String
fourth_day = "2026-01-04T12:00:00.000Z"
