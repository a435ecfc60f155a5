-- ===== src/Notify.antt =====
-- The notification outbox, backend/internal/notify/notify.go. Here the pure parts: the escaping of
-- Slack messages, the waiting times between attempts, and the signature of webhook bodies; below,
-- the table (Outbox) and the worker (Delivery).
pub mod Escape
pub mod Backoff
pub mod Outbox
pub mod Delivery
mod Tests
use kite_rail.Prelude.{
  ℕ, ◌+◌, ◌-◌, ◌*◌, ◌^◌, ◌%◌, Bool, List, [], ◌∷◌, ◌++◌, ltb, leb, ◌==◌, if◌then◌else◌, length,
  take,
}
use kite_rail.Prelude.Text.{Text, codes, hex}
use kite_rail.Prelude.Numbers.{Signed, nonneg, negative}

-- What `strings.NewReplacer` puts in the place of a byte.
unfoldable pub entity : ℕ → Text
entity c =
    if c == b'&'
    then codes "&amp;"
    else if c == b'<'
    then codes "&lt;"
    else if c == b'>'
    then codes "&gt;"
    else c ∷ []

unfoldable pub slack_escape : Text → Text
unfolding entity
slack_escape [] = []
slack_escape (c ∷ s) = entity c ++ slack_escape s

-- `Sign`; `hmac` stands for HMAC-SHA-256 of a key and a message.
unfoldable pub sign : (Text → Text → Text) → Text → Text → Text → Text
sign hmac secret timestamp body = codes "sha256=" ++ hex (hmac secret (timestamp ++ (b'.' ∷ body)))

abbrev pub max_attempts : ℕ
max_attempts = 8

-- Nanoseconds.
abbrev pub second : ℕ
second = 1000000000

abbrev pub hour : ℕ
hour = 3600 * second

-- A 64-bit pattern as an int64.
unfoldable pub int64_of : ℕ → Signed
int64_of n = if ltb n (2 ^ 63) then nonneg n else negative (2 ^ 64 - n - 1)

unfoldable pub min_hour : Signed → Signed
min_hour (nonneg n) = if ltb n hour then nonneg n else nonneg hour
min_hour (negative n) = negative n

-- `backoff`; the shift wraps at 64 bits. The count of attempts in the table is not negative.
unfoldable pub backoff : ℕ → Signed
unfolding int64_of min_hour
backoff attempts = min_hour (int64_of (15 * second * 2 ^ (attempts - 1) % 2 ^ 64))

-- `truncate`
unfoldable pub truncate : Text → ℕ → Text
truncate s n = if leb (length s) n then s else take n s
