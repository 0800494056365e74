-- ===== src/Manager/Locking.antt =====
-- pkg/manager/manager.go: the critical sections of Collect and CheckHealth under healthMu, in their
-- single accesses of the two fields.
use my_learning_journey.Base.{◌⊎◌, inl, inr, Bool, false, List, [], ◌∷◌}
use my_learning_journey.Golang.{Time, zero_time}
use my_learning_journey.Golang.RwMutex.{Guarded}

-- The fields under the lock.
pub record Health : Type 0 where
  pub last_tick_start : Time
  pub last_ok : Bool

abbrev pub new_health : Health
new_health = record { last_tick_start = zero_time; last_ok = false }

-- `CheckHealth` before it reads the first field, and the second one.
pub data HealthCursor : Type 0 where
  at_tick : HealthCursor
  at_ok : (last_tick : Time) → HealthCursor

-- The two critical sections of `Collect`.
pub data HealthUpdate : Type 0 where
  begins : (start_time : Time) → HealthUpdate
  ends : (healthy_tick : Bool) → HealthUpdate

unfoldable pub advance_check : Health → HealthCursor → HealthCursor ⊎ (Time × Bool)
advance_check h at_tick = inl (at_ok h.last_tick_start)
advance_check h (at_ok last_tick) = inr (last_tick, h.last_ok)

unfoldable pub collect_writes : HealthUpdate → List (Health → Health)
collect_writes (begins start_time) = (λ h. record h { last_tick_start = start_time }) ∷ []
collect_writes (ends healthy_tick) = (λ h. record h { last_ok = healthy_tick }) ∷ []

unfoldable pub locked_health : Guarded Health (Unit {0}) HealthCursor (Time × Bool) HealthUpdate
unfolding advance_check collect_writes
locked_health = record { start = λ _. at_tick; advance = advance_check; writes = collect_writes }
