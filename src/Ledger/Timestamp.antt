-- ===== src/Ledger/Timestamp.antt =====
-- The timestamps of backend/internal/ledger/ledger.go: a `time.Time` in UTC by its calendar fields,
-- cut to the microseconds that Postgres stores, and printed in the layout of `calculateHash`.
use kite_rail.Prelude.{
  ℕ, ◌+◌, ◌-◌, ◌/◌, ◌%◌, ◌<◌, ◌≡◌, Bool, false, ◌&&◌, [], ◌∷◌, ◌++◌, ltb, ◌==◌, if◌then◌else◌,
}
use kite_rail.Prelude.Text.{Text, decimal, pad}
use kite_rail.Prelude.Numbers.{Signed, nonneg, negative}

pub record Time : Type 0 where
  -- In Go's count, in which year 0 is 1 BC.
  pub year : Signed
  pub month : ℕ
  pub day : ℕ
  pub hour : ℕ
  pub minute : ℕ
  pub second : ℕ
  pub nanosecond : ℕ

-- The zero `time.Time`, 1 January of year 1.
abbrev pub zero_time : Time
zero_time = record {
  year = nonneg 1;
  month = 1;
  day = 1;
  hour = 0;
  minute = 0;
  second = 0;
  nanosecond = 0;
}

abbrev is_one : Signed → Bool
is_one (nonneg y) = y == 1
is_one (negative y) = false

-- `Time.IsZero`
unfoldable pub is_zero : Time → Bool
is_zero t =
    is_one t.year
    && (t.month == 1)
    && (t.day == 1)
    && (t.hour == 0)
    && (t.minute == 0)
    && (t.second == 0)
    && (t.nanosecond == 0)

-- `t.UTC().Truncate(time.Microsecond)`; a `Time` is in UTC already.
unfoldable pub normalize_timestamp : Time → Time
normalize_timestamp t = record t { nanosecond = t.nanosecond - t.nanosecond % 1000 }

-- Years are padded to four digits, and longer ones are printed whole.
unfoldable pub year_digits : ℕ → Text
year_digits y = if ltb y 10000 then pad 4 y else decimal y

-- A year before year 0 has a sign.
unfoldable pub year_text : Signed → Text
unfolding year_digits
year_text (nonneg y) = year_digits y
year_text (negative y) = b'-' ∷ year_digits (y + 1)

-- `Format("2006-01-02T15:04:05.000000Z07:00")`, whose zone is `Z` in UTC.
unfoldable pub format : Time → Text
unfolding year_text
format t =
    year_text t.year
    ++ (b'-'
        ∷ (pad 2 t.month
            ++ (b'-'
                ∷ (pad 2 t.day
                    ++ (b'T'
                        ∷ (pad 2 t.hour
                            ++ (b':'
                                ∷ (pad 2 t.minute
                                    ++ (b':'
                                        ∷ (pad 2 t.second
                                            ++ (b'.'
                                                ∷ (pad 6 (t.nanosecond / 1000)
                                                    ++ (b'Z' ∷ [])))))))))))))

-- A time that the layout prints without loss: any year, the other fields in range, cut to
-- microseconds.
pub record IsStored (t : Time) : Type 0 where
  pub month_range : t.month < 100
  pub day_range : t.day < 100
  pub hour_range : t.hour < 100
  pub minute_range : t.minute < 100
  pub second_range : t.second < 100
  pub nanosecond_range : t.nanosecond < 1000000000
  pub microseconds : t.nanosecond % 1000 ≡ 0
