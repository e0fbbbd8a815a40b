-- ===== src/Memory/Moment.antt =====
-- `recorded_at` (tree/memory/ledger_entry.py): an instant in UTC as fixed-width ISO 8601 text.
use complex_git_sync.Prelude.{
  ℕ, ◌+◌, ◌/◌, ◌%◌, ◌<◌, ◌≡◌, refl, Bool, false, ◌&&◌, ◌||◌, [], ◌∷◌, arith, ltb, ◌==◌, Text,
  text_lt, text_lt_irrefl,
}

-- What `clock.now().astimezone(UTC)` holds down to the second.
pub record Moment : Type 0 where
  pub year : ℕ
  pub month : ℕ
  pub day : ℕ
  pub hour : ℕ
  pub minute : ℕ
  pub second : ℕ

pub record IsMoment (m : Moment) : Type 0 where
  pub year_fits : m.year < 10000
  pub month_fits : m.month < 100
  pub day_fits : m.day < 100
  pub hour_fits : m.hour < 100
  pub minute_fits : m.minute < 100
  pub second_fits : m.second < 100

-- Two digits, before `rest`.
unfoldable pub two : ℕ → Text → Text
two n rest = (48 + n / 10) ∷ (48 + n % 10) ∷ rest

unfoldable pub four : ℕ → Text → Text
unfolding two
four n rest = two (n / 100) (two (n % 100) rest)

-- isoformat(timespec="seconds").replace("+00:00", "Z")
unfoldable pub iso_utc : Moment → Text
iso_utc m = four m.year (
    b'-'
    ∷ two m.month (
        b'-'
        ∷ two m.day (b'T' ∷ two m.hour (b':' ∷ two m.minute (b':' ∷ two m.second (b'Z' ∷ []))))))

-- Earlier in time: the first field that differs decides.
abbrev pub earlier_field : ℕ → ℕ → Bool → Bool
earlier_field a b rest = ltb a b || (a == b && rest)

unfoldable pub earlier : Moment → Moment → Bool
earlier a b = earlier_field a.year b.year (
    earlier_field a.month b.month (
      earlier_field a.day b.day
        (earlier_field a.hour b.hour (earlier_field a.minute b.minute (ltb a.second b.second)))))

text_lt-cons : (c : ℕ) (xs ys : Text) → text_lt (c ∷ xs) (c ∷ ys) ≡ text_lt xs ys
unfolding text_lt
text_lt-cons c xs ys = ground arith

text_lt-two :
    (a b : ℕ) (xs ys : Text)
    → a < 100
    → b < 100
    → text_lt (two a xs) (two b ys) ≡ earlier_field a b (text_lt xs ys)
unfolding text_lt two
text_lt-two a b xs ys h k = ground arith

text_lt-four :
    (a b : ℕ) (xs ys : Text)
    → a < 10000
    → b < 10000
    → text_lt (four a xs) (four b ys) ≡ earlier_field a b (text_lt xs ys)
text_lt-four a b xs ys h k =
    unfold four in
    rw
      (
        text_lt-two (a / 100) (b / 100) (two (a % 100) xs) (two (b % 100) ys) (omega arith)
            (omega arith),
        text_lt-two (a % 100) (b % 100) xs ys (omega arith) (omega arith),
      )
      (fields a b (text_lt xs ys))
  where
    fields :
        (a b : ℕ) (r : Bool)
        → earlier_field (a / 100) (b / 100) (earlier_field (a % 100) (b % 100) r)
          ≡ earlier_field a b r
    fields a b r = ground arith

last_field : (a b : ℕ) → earlier_field a b false ≡ ltb a b
last_field a b = ground arith

-- For two instants whose fields fit their digits, the order of the recorded texts is the order in
-- time.
pub iso_utc-earlier :
    (a b : Moment) → IsMoment a → IsMoment b → text_lt (iso_utc a) (iso_utc b) ≡ earlier a b
iso_utc-earlier a b p q =
    unfold iso_utc earlier in
    rw
      (
        text_lt-four a.year b.year _ _ p.year_fits q.year_fits,
        text_lt-cons b'-',
        text_lt-two a.month b.month _ _ p.month_fits q.month_fits,
        text_lt-cons b'-',
        text_lt-two a.day b.day _ _ p.day_fits q.day_fits,
        text_lt-cons b'T',
        text_lt-two a.hour b.hour _ _ p.hour_fits q.hour_fits,
        text_lt-cons b':',
        text_lt-two a.minute b.minute _ _ p.minute_fits q.minute_fits,
        text_lt-cons b':',
        text_lt-two a.second b.second _ _ p.second_fits q.second_fits,
        text_lt_irrefl (b'Z' ∷ []),
        last_field a.second b.second,
      )
      refl
