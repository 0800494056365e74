-- ===== src/Golang.antt =====
-- What the program uses of Go's standard library: package time, and the deadline of package
-- context.
pub mod RwMutex
use my_learning_journey.Base.{ℕ, ◌-◌, ◌^◌, ◌≡◌, Bool, Option, none, some, arith, leb, if◌then◌else◌}
use my_learning_journey.Base.Int.{ℤ, pos, negsuc, ◌-ℤ◌, ◌+ℤ◌, ltb_ℤ, eqb_ℤ}

-- Nanoseconds since January 1 of year 1, which is the zero `time.Time`.
abbrev pub Time : Type 0
Time = ℤ

-- `time.Duration`: an int64 number of nanoseconds.
abbrev pub Duration : Type 0
Duration = ℤ

abbrev pub zero_time : Time
zero_time = pos 0

abbrev pub millisecond : ℕ
millisecond = 1000000

abbrev pub second : ℕ
second = 1000000000

abbrev pub max_int64 : ℕ
max_int64 = 2 ^ 63 - 1

abbrev pub is_zero : Time → Bool
is_zero t = eqb_ℤ t zero_time

-- `t.After(u)`
abbrev pub after : Time → Time → Bool
after t u = ltb_ℤ u t

-- The int64 with the bits of a uint64.
abbrev pub int64 : ℕ → ℤ
int64 n = if leb n max_int64 then pos n else negsuc (2 ^ 64 - 1 - n)

-- Durations saturate at the ends of int64.
abbrev pub saturate : ℤ → Duration
saturate (pos n) = if leb n max_int64 then pos n else pos max_int64
saturate (negsuc n) = if leb n max_int64 then negsuc n else negsuc max_int64

-- `t.Sub(u)`
unfoldable pub sub : Time → Time → Duration
unfolding ◌-ℤ◌
sub t u = saturate (t -ℤ u)

-- A context, by its deadline.
pub record Context : Type 0 where
  pub deadline : Option Time

-- `context.Background()`
abbrev pub background : Context
background = record { deadline = none }

-- `context.WithTimeout(parent, timeout)` at the time `now`: the earlier of the two deadlines.
unfoldable pub with_timeout : Context → Time → Duration → Context
with_timeout parent now timeout = elim parent.deadline [
  | none ↦ record { deadline = some (now +ℤ timeout) }
  | some d ↦ record { deadline = some (if ltb_ℤ d (now +ℤ timeout) then d else now +ℤ timeout) }
]
