-- ===== src/Golang/RwMutex/Returns.antt =====
-- sync.RWMutex: every call returns.
use native.Mathlib.Decide.{dec_lt}
use my_learning_journey.Base.{ℕ, zero, suc, ◌+◌, ◌≤◌, ◌≡◌, List, [], ◌∷◌, arith, All, sum_of}
use my_learning_journey.Golang.RwMutex.{
  Guarded, Thread, asking, reading, answered, updating, waiting, writing, updated, Locked, Runs,
  moves, Moves, here, later,
}
use my_learning_journey.Golang.RwMutex.Preserved.{Runs-Inv}
use my_learning_journey.Golang.RwMutex.Progress.{
  Bounded, steps_left, all_steps_left, Move-fewer, unfinished_moves,
}

abbrev pub IsFinished :
    {Memory Query Cursor Answer Update : Type 0} → Thread Memory Query Cursor Answer Update → Type 0
IsFinished (answered _ _ _) = Unit
IsFinished (updated _) = Unit
IsFinished _ = ⊥

module _ {Memory Query Cursor Answer Update : Type 0}
    (object : Guarded Memory Query Cursor Answer Update) (b : Bounded object) where
  steps_left-IsFinished :
      (x : Thread Memory Query Cursor Answer Update) → steps_left object b x ≡ 0 → IsFinished x
  steps_left-IsFinished (asking _ _) h = absurd (omega arith)
  steps_left-IsFinished (reading _ _ _) h = absurd (omega arith)
  steps_left-IsFinished (answered _ _ _) h = tt
  steps_left-IsFinished (updating _) h = absurd (omega arith)
  steps_left-IsFinished (waiting _) h = absurd (omega arith)
  steps_left-IsFinished (writing _ _) h = absurd (omega arith)
  steps_left-IsFinished (updated _) h = tt

  all-IsFinished :
      (ts : List (Thread Memory Query Cursor Answer Update))
      → sum_of (steps_left object b) ts ≡ 0
      → All IsFinished ts
  all-IsFinished [] h = tt
  all-IsFinished (x ∷ ts) h =
      (steps_left-IsFinished x (omega arith), all-IsFinished ts (omega arith))

  Moves-fewer :
      {s t : Locked Memory Query Cursor Answer Update} {k : ℕ}
      → Moves object s k t
      → k + all_steps_left object b t ≤ all_steps_left object b s
  Moves-fewer here = omega arith
  Moves-fewer (later v w) = omega (arith, Moves-fewer v, Move-fewer object b w)

  module _ (m : Memory) where
    Runs-Moves :
        {s t : Locked Memory Query Cursor Answer Update} {k : ℕ}
        → Runs object m s
        → Moves object s k t
        → Runs object m t
    Runs-Moves r here = r
    Runs-Moves r (later v w) = moves (Runs-Moves r v) w

    finish_from :
        {s : Locked Memory Query Cursor Answer Update}
        → Runs object m s
        → (fuel k : ℕ) (t : Locked Memory Query Cursor Answer Update)
        → all_steps_left object b t ≤ fuel
        → Moves object s k t
        → (l : ℕ) × (u : Locked Memory Query Cursor Answer Update) × Moves object s l u
          × All IsFinished u.threads
    finish_from r zero k t h v = (k, t, v, all-IsFinished t.threads (omega arith))
    finish_from r (suc fuel) k t h v = elim (dec_lt 0 (all_steps_left object b t)) [
      | no finished ↦ (k, t, v, all-IsFinished t.threads (omega arith))
      | yes more ↦
          let (u, w) = unfinished_moves object b t (Runs-Inv object m (Runs-Moves r v)) more in
          finish_from r fuel (suc k) u (omega (arith, Move-fewer object b w)) (later v w)
    ]

    -- Every call returns: no more steps are possible than are left in all goroutines, and after
    -- some steps all calls have returned.
    pub Runs-returns :
        {s : Locked Memory Query Cursor Answer Update}
        → Runs object m s
        → ((k : ℕ) (t : Locked Memory Query Cursor Answer Update)
            → Moves object s k t
            → k + all_steps_left object b t ≤ all_steps_left object b s)
          × ((k : ℕ) × (t : Locked Memory Query Cursor Answer Update) × Moves object s k t
              × All IsFinished t.threads)
    Runs-returns {s} r =
        ((λ k t v. Moves-fewer v), finish_from r (all_steps_left object b s) 0 s (omega arith) here)
