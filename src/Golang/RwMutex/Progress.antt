-- ===== src/Golang/RwMutex/Progress.antt =====
-- sync.RWMutex: who can take the next step, and how many steps are left.
use native.Mathlib.Decide.{dec_lt}
use my_learning_journey.Base.{
  ℕ, ◌+◌, ◌<◌, ◌≡◌, refl, ap, inl, inr, Bool, true, false, Sum-cases, List, [], ◌∷◌, ◌++◌, arith,
  length, sum_of, sum_of-replace, sum_of-at, find_weighty,
}
use my_learning_journey.Golang.RwMutex.{
  Guarded, Thread, asking, reading, answered, updating, waiting, writing, updated, Locked, Move,
  read_lock, read, read_unlock, lock, readers_gone, write, unlock,
}
use my_learning_journey.Golang.RwMutex.Invariant.{reads, announces, flag, Inv}

-- The accesses that a read has left at most.
pub record Bounded {Memory Query Cursor Answer Update : Type 0}
    (object : Guarded Memory Query Cursor Answer Update) : Type 0 where
  pub left : Cursor → ℕ
  pub fewer : (m : Memory) (c d : Cursor) → object.advance m c ≡ inl d → left d < left c

module _ {Memory Query Cursor Answer Update : Type 0}
    (object : Guarded Memory Query Cursor Answer Update) (b : Bounded object) where
  -- The steps that a goroutine has left at most, and all of them.
  abbrev pub steps_left : Thread Memory Query Cursor Answer Update → ℕ
  steps_left (asking q _) = b.left (object.start q) + 2
  steps_left (reading _ _ c) = b.left c + 1
  steps_left (answered _ _ _) = 0
  steps_left (updating u) = length (object.writes u) + 3
  steps_left (waiting u) = length (object.writes u) + 2
  steps_left (writing _ ws) = length ws + 1
  steps_left (updated _) = 0

  abbrev pub all_steps_left : Locked Memory Query Cursor Answer Update → ℕ
  all_steps_left s = sum_of steps_left s.threads

  replaced-lt :
      (ts before : List (Thread Memory Query Cursor Answer Update))
      (x y : Thread Memory Query Cursor Answer Update)
      (behind : List (Thread Memory Query Cursor Answer Update))
      → ts ≡ before ++ x ∷ behind
      → steps_left y < steps_left x
      → sum_of steps_left (before ++ y ∷ behind) < sum_of steps_left ts
  replaced-lt ts before x y behind e h =
      omega (arith, ap (sum_of steps_left) e, sum_of-replace steps_left before x y behind)

  pub Move-fewer :
      {s t : Locked Memory Query Cursor Answer Update}
      → Move object s t
      → all_steps_left t < all_steps_left s
  Move-fewer {s} (read_lock before behind q since e _) =
      replaced-lt s.threads before (asking q since) (reading q since (object.start q)) behind e
        (omega arith)
  Move-fewer {s} (read before behind q since c d e a) =
      replaced-lt s.threads before (reading q since c) (reading q since d) behind e
        (omega (arith, b.fewer s.memory c d a))
  Move-fewer {s} (read_unlock before behind q since c a e _) =
      replaced-lt s.threads before (reading q since c) (answered q since a) behind e (omega arith)
  Move-fewer {s} (lock before behind u e _) =
      replaced-lt s.threads before (updating u) (waiting u) behind e (omega arith)
  Move-fewer {s} (readers_gone before behind u e _) =
      replaced-lt s.threads before (waiting u) (writing u (object.writes u)) behind e (omega arith)
  Move-fewer {s} (write before behind u w ws e) =
      replaced-lt s.threads before (writing u (w ∷ ws)) (writing u ws) behind e (omega arith)
  Move-fewer {s} (unlock before behind u e) =
      replaced-lt s.threads before (writing u []) (updated u) behind e (omega arith)

  unset : (w : Bool) → flag w ≡ 0 → w ≡ false
  unset true h = absurd (omega arith)
  unset false h = refl

  module _ (s : Locked Memory Query Cursor Answer Update) where
    -- There is a next step.
    abbrev pub CanMove : Type 0
    CanMove = (t : Locked Memory Query Cursor Answer Update) × Move object s t

    -- A reader in its critical section gets on.
    reader_moves :
        (before : List (Thread Memory Query Cursor Answer Update))
        (x : Thread Memory Query Cursor Answer Update)
        (behind : List (Thread Memory Query Cursor Answer Update))
        → s.threads ≡ before ++ x ∷ behind
        → 0 < reads x
        → CanMove
    reader_moves before (reading q since c) behind e w =
        elim (Sum-cases (object.advance s.memory c)) [
          | inl (d, a) ↦ (_, read before behind q since c d e a)
          | inr (a, h) ↦ (_, read_unlock before behind q since c a e h)
        ]
    reader_moves before (asking _ _) behind e w = absurd (omega arith)
    reader_moves before (answered _ _ _) behind e w = absurd (omega arith)
    reader_moves before (updating _) behind e w = absurd (omega arith)
    reader_moves before (waiting _) behind e w = absurd (omega arith)
    reader_moves before (writing _ _) behind e w = absurd (omega arith)
    reader_moves before (updated _) behind e w = absurd (omega arith)

    -- So does a writer that keeps the others out, where nobody reads.
    writer_moves :
        (before : List (Thread Memory Query Cursor Answer Update))
        (x : Thread Memory Query Cursor Answer Update)
        (behind : List (Thread Memory Query Cursor Answer Update))
        → s.threads ≡ before ++ x ∷ behind
        → s.readers ≡ 0
        → 0 < announces x
        → CanMove
    writer_moves before (waiting u) behind e z w = (_, readers_gone before behind u e z)
    writer_moves before (writing u (x ∷ xs)) behind e z w = (_, write before behind u x xs e)
    writer_moves before (writing u []) behind e z w = (_, unlock before behind u e)
    writer_moves before (asking _ _) behind e z w = absurd (omega arith)
    writer_moves before (reading _ _ _) behind e z w = absurd (omega arith)
    writer_moves before (answered _ _ _) behind e z w = absurd (omega arith)
    writer_moves before (updating _) behind e z w = absurd (omega arith)
    writer_moves before (updated _) behind e z w = absurd (omega arith)

    -- Anybody gets the lock that nobody has.
    caller_moves :
        (before : List (Thread Memory Query Cursor Answer Update))
        (x : Thread Memory Query Cursor Answer Update)
        (behind : List (Thread Memory Query Cursor Answer Update))
        → s.threads ≡ before ++ x ∷ behind
        → s.writer ≡ false
        → reads x + announces x ≡ 0
        → 0 < steps_left x
        → CanMove
    caller_moves before (asking q since) behind e free z w =
        (_, read_lock before behind q since e free)
    caller_moves before (updating u) behind e free z w = (_, lock before behind u e free)
    caller_moves before (reading _ _ _) behind e free z w = absurd (omega arith)
    caller_moves before (answered _ _ _) behind e free z w = absurd (omega arith)
    caller_moves before (waiting _) behind e free z w = absurd (omega arith)
    caller_moves before (writing _ _) behind e free z w = absurd (omega arith)
    caller_moves before (updated _) behind e free z w = absurd (omega arith)

    pub unfinished_moves : {m : Memory} → Inv object m s → 0 < all_steps_left s → CanMove
    unfinished_moves i h = elim (dec_lt 0 (sum_of reads s.threads)) [
      | yes some_read ↦
          let (before, x, behind, e, w) = find_weighty reads s.threads some_read in
          reader_moves before x behind e w
      | no none_reads ↦ elim (dec_lt 0 (sum_of announces s.threads)) [
        | yes some_write ↦
            let (before, x, behind, e, w) = find_weighty announces s.threads some_write in
            writer_moves before x behind e (omega (arith, i.readers)) w
        | no none_writes ↦
            let (before, x, behind, e, w) = find_weighty steps_left s.threads h in
            let free : s.writer ≡ false = unset s.writer (omega (arith, i.writer)) in
            let out : reads x + announces x ≡ 0 = omega (
              arith,
              ap (sum_of reads) e,
              ap (sum_of announces) e,
              sum_of-at reads before x behind,
              sum_of-at announces before x behind,
            ) in
            caller_moves before x behind e free out w
      ]
    ]
