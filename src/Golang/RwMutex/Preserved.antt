-- ===== src/Golang/RwMutex/Preserved.antt =====
-- sync.RWMutex: every step keeps the invariant.
use mathlib.Core.List.{mem-cons_self}
use my_learning_journey.Base.{
  ◌+◌, ◌≤◌, ◌≡◌, refl, ap, inl, List, [], ◌∷◌, ◌++◌, arith, All, All-at, All-replace,
  All-replace_weightless, sum_of, sum_of-replace, sum_of-at,
}
use my_learning_journey.Golang.RwMutex.{
  Guarded, Thread, asking, reading, answered, updating, waiting, writing, updated, Locked, Move,
  call_read, call_update, read_lock, read, read_unlock, lock, readers_gone, write, unlock, Runs,
  idle, moves, write_all, begins, continues,
}
use my_learning_journey.Golang.RwMutex.Invariant.{
  reads, writes, announces, holds, writes-le, holds-sum, flag, flag-le, Good, Inv, Good-memory,
  Good-log,
}

module _ {Memory Query Cursor Answer Update : Type 0}
    (object : Guarded Memory Query Cursor Answer Update) (m : Memory) where
  abbrev Goroutine : Type 0
  Goroutine = Thread Memory Query Cursor Answer Update

  -- The counts in a state where one goroutine is `x`, and where it has become `y`.
  record Counted (s : Locked Memory Query Cursor Answer Update) (x y : Goroutine)
      (next : List Goroutine) : Type 0 where
    pub reading : sum_of reads next + reads x ≡ sum_of reads s.threads + reads y
    pub writing : sum_of writes next + writes x ≡ sum_of writes s.threads + writes y
    pub announcing : sum_of announces next + announces x ≡ sum_of announces s.threads + announces y
    pub reads_here : reads x ≤ sum_of reads s.threads
    pub writes_here : writes x ≤ sum_of writes s.threads
    pub announces_here : announces x ≤ sum_of announces s.threads
    pub fewer : sum_of writes s.threads ≤ sum_of announces s.threads
    pub fewer_next : sum_of writes next ≤ sum_of announces next
    pub holding : sum_of holds s.threads ≡ sum_of reads s.threads + sum_of writes s.threads

  counted :
      {s : Locked Memory Query Cursor Answer Update} (before : List Goroutine) (x y : Goroutine)
      (behind : List Goroutine)
      → s.threads ≡ before ++ x ∷ behind
      → Counted s x y (before ++ y ∷ behind)
  counted before x y behind e = record {
    reading = rw e (sum_of-replace reads before x y behind);
    writing = rw e (sum_of-replace writes before x y behind);
    announcing = rw e (sum_of-replace announces before x y behind);
    reads_here = rw e (sum_of-at reads before x behind);
    writes_here = rw e (sum_of-at writes before x behind);
    announces_here = rw e (sum_of-at announces before x behind);
    fewer = writes-le _;
    fewer_next = writes-le _;
    holding = holds-sum _;
  }

  module _ {s : Locked Memory Query Cursor Answer Update} (i : Inv object m s)
      (before : List Goroutine) (x : Goroutine) (behind : List Goroutine)
      (e : s.threads ≡ before ++ x ∷ behind) where
    good_here : Good object m s.log s.memory x
    good_here = All-at (Good object m s.log s.memory) before x behind (rw e at i.good)

    -- The others stay as they are: nothing changes for them; nobody else writes, and the memory
    -- changes; or nobody else holds the lock, and an update is done.
    others_same :
        (y : Goroutine)
        → Good object m s.log s.memory y
        → All (Good object m s.log s.memory) (before ++ y ∷ behind)
    others_same y g =
        All-replace (Good object m s.log s.memory) before x y behind g (rw e at i.good)

    others_memory :
        (next : Memory) (y : Goroutine)
        → sum_of writes s.threads ≡ writes x
        → Good object m s.log next y
        → All (Good object m s.log next) (before ++ y ∷ behind)
    others_memory next y z g =
        All-replace_weightless writes (Good-memory object m s.log s.memory next) before x y behind
          (rw e at z) g (rw e at i.good)

    others_log :
        (u : Update) (y : Goroutine)
        → sum_of holds s.threads ≡ holds x
        → Good object m (u ∷ s.log) s.memory y
        → All (Good object m (u ∷ s.log) s.memory) (before ++ y ∷ behind)
    others_log u y z g =
        All-replace_weightless holds (Good-log object m u s.log s.memory) before x y behind
          (rw e at z) g (rw e at i.good)

  pub Move-Inv :
      {s t : Locked Memory Query Cursor Answer Update}
      → Inv object m s
      → Move object s t
      → Inv object m t
  Move-Inv {s} i (read_lock before behind q since e free) =
      let x = asking q since in
      let y = reading q since (object.start q) in
      let k = counted {s = s} before x y behind e in
      let free' = ap flag free in
      record {
        readers = omega arith;
        writer = omega arith;
        quiet = λ z. i.quiet (omega arith);
        alone = omega arith;
        good = others_same i before x behind e y (good_here i before x behind e, begins);
      }
  Move-Inv {s} i (read before behind q since c d e a) =
      let x = reading q since c in
      let y = reading q since d in
      let k = counted {s = s} before x y behind e in
      let unwritten = i.quiet (omega arith) in
      let (early, r) = good_here i before x behind e in
      record {
        readers = omega arith;
        writer = omega arith;
        quiet = λ _. unwritten;
        alone = omega arith;
        good = others_same i before x behind e y (early, continues r (rw unwritten at a));
      }
  Move-Inv {s} i (read_unlock before behind q since c a e b) =
      let x = reading q since c in
      let y = answered q since a in
      let k = counted {s = s} before x y behind e in
      let unwritten = i.quiet (omega arith) in
      let (early, r) = good_here i before x behind e in
      record {
        readers = omega arith;
        writer = omega arith;
        quiet = λ _. unwritten;
        alone = omega arith;
        good =
            others_same i before x behind e y (s.log, early, ([], refl), (c, r, rw unwritten at b));
      }
  Move-Inv {s} i (lock before behind u e free) =
      let k = counted {s = s} before (updating u) (waiting u) behind e in
      let free' = ap flag free in
      record {
        readers = omega arith;
        writer = omega arith;
        quiet = λ z. i.quiet (omega arith);
        alone = omega arith;
        good = others_same i before (updating u) behind e (waiting u) tt;
      }
  Move-Inv {s} i (readers_gone before behind u e gone) =
      let y = writing u (object.writes u) in
      let k = counted {s = s} before (waiting u) y behind e in
      let once = flag-le s.writer in
      let unwritten = i.quiet (omega arith) in
      record {
        readers = omega arith;
        writer = omega arith;
        quiet = λ _. unwritten;
        alone = omega arith;
        good =
            others_same i before (waiting u) behind e y
              (ap (write_all object (object.writes u)) unwritten);
      }
  Move-Inv {s} i (write before behind u w ws e) =
      let x = writing u (w ∷ ws) in
      let y = writing u ws in
      let k = counted {s = s} before x y behind e in
      let once = flag-le s.writer in
      record {
        readers = omega arith;
        writer = omega arith;
        quiet = λ z. absurd (omega arith);
        alone = omega arith;
        good =
            others_memory i before x behind e (w s.memory) y (omega arith)
              (good_here i before x behind e);
      }
  Move-Inv {s} i (unlock before behind u e) =
      let x = writing u [] in
      let k = counted {s = s} before x (updated u) behind e in
      let once = flag-le s.writer in
      let written = good_here i before x behind e in
      record {
        readers = omega arith;
        writer = omega arith;
        quiet = λ _. written;
        alone = omega arith;
        good = others_log i before x behind e u (updated u) (omega arith) mem-cons_self;
      }

  pub Runs-Inv : {s : Locked Memory Query Cursor Answer Update} → Runs object m s → Inv object m s
  Runs-Inv idle = record {
    readers = refl;
    writer = refl;
    quiet = λ _. refl;
    alone = inl refl;
    good = tt;
  }
  Runs-Inv (call_read {s} q r) =
      let i = Runs-Inv r in
      record {
        readers = omega (arith, i.readers);
        writer = omega (arith, i.writer);
        quiet = λ z. i.quiet (omega arith);
        alone = omega (arith, i.alone);
        good = (([], refl), i.good);
      }
  Runs-Inv (call_update {s} u r) =
      let i = Runs-Inv r in
      record {
        readers = omega (arith, i.readers);
        writer = omega (arith, i.writer);
        quiet = λ z. i.quiet (omega arith);
        alone = omega (arith, i.alone);
        good = (tt, i.good);
      }
  Runs-Inv (moves r v) = Move-Inv (Runs-Inv r) v
