-- ===== src/Golang/RwMutex/Invariant.antt =====
-- sync.RWMutex: what the lock, the memory and the goroutines have to do with one another.
use mathlib.Core.List.{Mem, mem-cons_of_mem}
use my_learning_journey.Base.{
  ℕ, ◌+◌, ◌≤◌, ◌≡◌, refl, ap, ◌⊎◌, Bool, true, false, List, [], ◌∷◌, arith, All, sum_of,
}
use my_learning_journey.Golang.RwMutex.{
  Guarded, Thread, asking, reading, answered, updating, waiting, writing, updated, Locked,
  write_all, after, Reads, Answers, Since,
}

module _ {Memory Query Cursor Answer Update : Type 0} where
  abbrev pub reads : Thread Memory Query Cursor Answer Update → ℕ
  reads (reading _ _ _) = 1
  reads _ = 0

  abbrev pub writes : Thread Memory Query Cursor Answer Update → ℕ
  writes (writing _ _) = 1
  writes _ = 0

  -- It has set the writer's flag.
  abbrev pub announces : Thread Memory Query Cursor Answer Update → ℕ
  announces (waiting _) = 1
  announces (writing _ _) = 1
  announces _ = 0

  abbrev pub holds : Thread Memory Query Cursor Answer Update → ℕ
  holds t = reads t + writes t

  pub writes-le :
      (ts : List (Thread Memory Query Cursor Answer Update))
      → sum_of writes ts ≤ sum_of announces ts
  writes-le [] = omega arith
  writes-le (asking _ _ ∷ ts) = omega (arith, writes-le ts)
  writes-le (reading _ _ _ ∷ ts) = omega (arith, writes-le ts)
  writes-le (answered _ _ _ ∷ ts) = omega (arith, writes-le ts)
  writes-le (updating _ ∷ ts) = omega (arith, writes-le ts)
  writes-le (waiting _ ∷ ts) = omega (arith, writes-le ts)
  writes-le (writing _ _ ∷ ts) = omega (arith, writes-le ts)
  writes-le (updated _ ∷ ts) = omega (arith, writes-le ts)

  pub holds-sum :
      (ts : List (Thread Memory Query Cursor Answer Update))
      → sum_of holds ts ≡ sum_of reads ts + sum_of writes ts
  holds-sum [] = refl
  holds-sum (t ∷ ts) = omega (arith, holds-sum ts)

abbrev pub flag : Bool → ℕ
flag true = 1
flag false = 0

pub flag-le : (b : Bool) → flag b ≤ 1
flag-le true = omega arith
flag-le false = omega arith

Since-cons :
    {Update : Type 0} (u : Update) (since log : List Update)
    → Since since log
    → Since since (u ∷ log)
Since-cons u since log (more, e) = (u ∷ more, ap (◌∷◌ u) e)

module _ {Memory Query Cursor Answer Update : Type 0}
    (object : Guarded Memory Query Cursor Answer Update) (m : Memory) where
  -- What holds of a goroutine, after the updates `log` and with `now` in the memory.
  abbrev pub Good : List Update → (now : Memory) → Thread Memory Query Cursor Answer Update → Type 0
  Good log now (asking q since) = Since since log
  Good log now (reading q since c) = Since since log × Reads object (after object m log) q c
  Good log now (answered q since a) =
      (seen : List Update) × Since since seen
      × Since seen log
      × Answers object (after object m seen) q a
  Good log now (updating u) = Unit
  Good log now (waiting u) = Unit
  Good log now (writing u ws) = write_all object ws now ≡ after object m (u ∷ log)
  Good log now (updated u) = Mem u log

  -- While nobody writes the memory is that after the updates; while somebody does nobody reads.
  pub record Inv (s : Locked Memory Query Cursor Answer Update) : Type 0 where
    pub readers : s.readers ≡ sum_of reads s.threads
    pub writer : flag s.writer ≡ sum_of announces s.threads
    pub quiet : sum_of writes s.threads ≡ 0 → s.memory ≡ after object m s.log
    pub alone : (sum_of writes s.threads ≡ 0) ⊎ (s.readers ≡ 0)
    pub good : All (Good s.log s.memory) s.threads

  -- A goroutine that does not write does not mind the memory, and one that does not hold the lock
  -- does not mind one more update.
  pub Good-memory :
      (log : List Update) (now next : Memory) (t : Thread Memory Query Cursor Answer Update)
      → writes t ≡ 0
      → Good log now t
      → Good log next t
  Good-memory log now next (asking _ _) z g = g
  Good-memory log now next (reading _ _ _) z g = g
  Good-memory log now next (answered _ _ _) z g = g
  Good-memory log now next (updating _) z g = g
  Good-memory log now next (waiting _) z g = g
  Good-memory log now next (writing _ _) z g = absurd (omega arith)
  Good-memory log now next (updated _) z g = g

  pub Good-log :
      (u : Update) (log : List Update) (now : Memory) (t : Thread Memory Query Cursor Answer Update)
      → holds t ≡ 0
      → Good log now t
      → Good (u ∷ log) now t
  Good-log u log now (asking _ since) z g = Since-cons u since log g
  Good-log u log now (reading _ _ _) z g = absurd (omega arith)
  Good-log u log now (answered _ _ _) z (seen, early, late, a) =
      (seen, early, Since-cons u seen log late, a)
  Good-log u log now (updating _) z g = g
  Good-log u log now (waiting _) z g = g
  Good-log u log now (writing _ _) z g = absurd (omega arith)
  Good-log u log now (updated _) z g = mem-cons_of_mem _ g
