-- ===== src/Golang/RwMutex.antt =====
-- sync.RWMutex of Go's standard library, around an object that goroutines read and update.
pub mod Invariant
pub mod Preserved
pub mod Snapshots
pub mod Progress
pub mod Returns
use my_learning_journey.Base.{
  ℕ, suc, ◌-◌, ◌≡◌, ◌⊎◌, inl, inr, Bool, true, false, List, [], ◌∷◌, ◌++◌,
}

-- What the critical sections do to the memory under the lock. A read is a chain of accesses: each
-- ends in the next position of the code or in the answer. An update is a list of single writes.
pub record Guarded (Memory Query Cursor Answer Update : Type 0) : Type 0 where
  pub start : Query → Cursor
  pub advance : Memory → Cursor → Cursor ⊎ Answer
  pub writes : Update → List (Memory → Memory)

-- A goroutine with one call: before `RLock`, between it and `RUnlock`, after that; or before
-- `Lock`, in it, between it and `Unlock` with the writes that are left, after that. A reader
-- carries the updates that were done when it made its call, which the program does not keep.
pub data Thread (Memory Query Cursor Answer Update : Type 0) : Type 0 where
  asking : Query → (since : List Update) → Thread Memory Query Cursor Answer Update
  reading : Query → (since : List Update) → Cursor → Thread Memory Query Cursor Answer Update
  answered : Query → (since : List Update) → Answer → Thread Memory Query Cursor Answer Update
  updating waiting : Update → Thread Memory Query Cursor Answer Update
  writing : Update → List (Memory → Memory) → Thread Memory Query Cursor Answer Update
  updated : Update → Thread Memory Query Cursor Answer Update

-- The memory, the lock, the goroutines, and the updates whose `Unlock` is done, the last one first.
-- `writer` is set while a `Lock` waits for the readers, and until its `Unlock`.
pub record Locked (Memory Query Cursor Answer Update : Type 0) : Type 0 where
  pub memory : Memory
  pub readers : ℕ
  pub writer : Bool
  pub threads : List (Thread Memory Query Cursor Answer Update)
  pub log : List Update

module _ {Memory Query Cursor Answer Update : Type 0}
    (object : Guarded Memory Query Cursor Answer Update) where
  -- One step of a goroutine. `RLock` waits for a writer, also for one that waits
  -- itself; `Lock` first keeps other writers and new readers out, and then waits for the readers.
  pub data Move (s : Locked Memory Query Cursor Answer Update)
      : Locked Memory Query Cursor Answer Update → Type 0 where
    read_lock :
        (before behind : List (Thread Memory Query Cursor Answer Update)) (q : Query)
        (since : List Update)
        → s.threads ≡ before ++ asking q since ∷ behind
        → s.writer ≡ false
        → Move s (record s {
          readers = suc s.readers;
          threads = before ++ reading q since (object.start q) ∷ behind;
        })
    read :
        (before behind : List (Thread Memory Query Cursor Answer Update)) (q : Query)
        (since : List Update) (c d : Cursor)
        → s.threads ≡ before ++ reading q since c ∷ behind
        → object.advance s.memory c ≡ inl d
        → Move s (record s { threads = before ++ reading q since d ∷ behind })
    read_unlock :
        (before behind : List (Thread Memory Query Cursor Answer Update)) (q : Query)
        (since : List Update) (c : Cursor) (a : Answer)
        → s.threads ≡ before ++ reading q since c ∷ behind
        → object.advance s.memory c ≡ inr a
        → Move s
            (record s { readers = s.readers - 1; threads = before ++ answered q since a ∷ behind })
    lock :
        (before behind : List (Thread Memory Query Cursor Answer Update)) (u : Update)
        → s.threads ≡ before ++ updating u ∷ behind
        → s.writer ≡ false
        → Move s (record s { writer = true; threads = before ++ waiting u ∷ behind })
    readers_gone :
        (before behind : List (Thread Memory Query Cursor Answer Update)) (u : Update)
        → s.threads ≡ before ++ waiting u ∷ behind
        → s.readers ≡ 0
        → Move s (record s { threads = before ++ writing u (object.writes u) ∷ behind })
    write :
        (before behind : List (Thread Memory Query Cursor Answer Update)) (u : Update)
        (w : Memory → Memory) (ws : List (Memory → Memory))
        → s.threads ≡ before ++ writing u (w ∷ ws) ∷ behind
        → Move s (record s { memory = w s.memory; threads = before ++ writing u ws ∷ behind })
    unlock :
        (before behind : List (Thread Memory Query Cursor Answer Update)) (u : Update)
        → s.threads ≡ before ++ writing u [] ∷ behind
        → Move s
            (record s { writer = false; threads = before ++ updated u ∷ behind; log = u ∷ s.log })

  -- The states that any calls reach from the memory `m`, in any order of their steps.
  pub data Runs (m : Memory) : Locked Memory Query Cursor Answer Update → Type 0 where
    idle : Runs m (record { memory = m; readers = 0; writer = false; threads = []; log = [] })
    call_read :
        {s : Locked Memory Query Cursor Answer Update} (q : Query)
        → Runs m s
        → Runs m (record s { threads = asking q s.log ∷ s.threads })
    call_update :
        {s : Locked Memory Query Cursor Answer Update} (u : Update)
        → Runs m s
        → Runs m (record s { threads = updating u ∷ s.threads })
    moves : {s t : Locked Memory Query Cursor Answer Update} → Runs m s → Move s t → Runs m t

  -- Steps with no new call, with their number.
  pub data Moves (s : Locked Memory Query Cursor Answer Update)
      : ℕ → Locked Memory Query Cursor Answer Update → Type 0 where
    here : Moves s 0 s
    later :
        {k : ℕ} {t u : Locked Memory Query Cursor Answer Update}
        → Moves s k t
        → Move t u
        → Moves s (suc k) u

  -- An update in one step, and the memory after updates that are each done in one step.
  abbrev pub write_all : List (Memory → Memory) → Memory → Memory
  write_all [] m = m
  write_all (w ∷ ws) m = write_all ws (w m)

  abbrev pub after : Memory → List Update → Memory
  after m [] = m
  after m (u ∷ log) = write_all (object.writes u) (after m log)

  -- The positions of a read whose accesses all meet one memory, and its answers.
  pub data Reads (m : Memory) (q : Query) : Cursor → Type 0 where
    begins : Reads m q (object.start q)
    continues : {c d : Cursor} → Reads m q c → object.advance m c ≡ inl d → Reads m q d

  abbrev pub Answers : Memory → Query → Answer → Type 0
  Answers m q a = (c : Cursor) × Reads m q c × (object.advance m c ≡ inr a)

-- The updates `log` are those of `since`, and more that came later.
abbrev pub Since : {Update : Type 0} → (since log : List Update) → Type 0
Since {Update} since log = (more : List Update) × (log ≡ more ++ since)

-- A part of a list that has grown by one element: the whole list, or a part of the old one.
pub Since-cases :
    {A : Type 0} (u : A) (log seen : List A)
    → Since seen (u ∷ log)
    → (u ∷ log ≡ seen) ⊎ Since seen log
Since-cases u log seen ([], e) = inl e
Since-cases u log seen (x ∷ more, e) = inr (more, cc)
