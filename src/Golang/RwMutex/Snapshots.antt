-- ===== src/Golang/RwMutex/Snapshots.antt =====
-- sync.RWMutex: what a reader sees.
use my_learning_journey.Base.{◌≡◌, List, ◌∷◌, ◌++◌, All-at}
use my_learning_journey.Golang.RwMutex.{
  Guarded, Thread, answered, Locked, Runs, after, Answers, Since,
}
use my_learning_journey.Golang.RwMutex.Invariant.{Good}
use my_learning_journey.Golang.RwMutex.Preserved.{Runs-Inv}

module _ {Memory Query Cursor Answer Update : Type 0}
    (object : Guarded Memory Query Cursor Answer Update) (m : Memory)
    {s : Locked Memory Query Cursor Answer Update} (r : Runs object m s) where
  -- An answer is that of a read in one step, after the updates `seen`, each of them done in one
  -- step: all that were done when the read was called, and no others than those that are done now.
  pub Runs-answered :
      (before behind : List (Thread Memory Query Cursor Answer Update)) (q : Query)
      (since : List Update) (a : Answer)
      → s.threads ≡ before ++ answered q since a ∷ behind
      → (seen : List Update) × Since since seen
        × Since seen s.log
        × Answers object (after object m seen) q a
  Runs-answered before behind q since a e =
      All-at (Good object m s.log s.memory) before (answered q since a) behind
        (rw e at (Runs-Inv object m r).good)
