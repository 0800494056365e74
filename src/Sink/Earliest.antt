-- ===== src/Sink/Earliest.antt =====
-- GetContainerMetrics: the metrics of one pod, and their time.
use mathlib.Core.Logic.Or
use mathlib.Core.List.{Mem, Mem-prop, mem-cons, mem-cons_self, mem-cons_of_mem, append_assoc}
use my_learning_journey.Base.{
  Bool-cases, ◌≢◌, ◌≡◌, refl, ap, ◌∙◌, inl, inr, Option, none, some, List, [], ◌∷◌, ◌++◌, arith,
  All, map, length, replicate, set-append, length-snoc,
}
use my_learning_journey.Base.Int.{◌≤ℤ◌}
use my_learning_journey.Golang.{Time, zero_time, after}
use my_learning_journey.Sources.{ContainerMetricsPoint, PodMetricsPoint}
use my_learning_journey.Provider.{TimeInfo, ContainerMetrics}
use my_learning_journey.Sink.{
  earlier, timestamp_or_zero, container_metrics, zero_container_metrics, containers_from,
  pod_metrics, kubernetes_cadvisor_window,
}

-- The time stands in the list, and none in the list is before it.
pub record IsEarliest (t : Time) (times : List Time) : Type 0 where
  pub member : Mem t times
  pub least : All (λ u. t ≤ℤ u) times

fold_earlier : Option Time → List Time → Option Time
fold_earlier e [] = e
fold_earlier e (t ∷ ts) = fold_earlier (earlier e t) ts

mem_second : {t u : Time} (v : Time) {ts : List Time} → Mem t (u ∷ ts) → Mem t (u ∷ v ∷ ts)
mem_second v m =
    Or.elim Mem-prop (mem-cons.0 m) (λ e. rw e mem-cons_self)
      (λ rest. mem-cons_of_mem _ (mem-cons_of_mem v rest))

-- Folding from a time on gives the earliest of that time and those of the list.
fold_earlier-IsEarliest :
    (u : Time) (ts : List Time)
    → (t : Time) × (fold_earlier (some u) ts ≡ some t) × IsEarliest t (u ∷ ts)
unfolding fold_earlier earlier
fold_earlier-IsEarliest u [] =
    (u, refl, record { member = mem-cons_self; least = (omega arith, tt) })
fold_earlier-IsEarliest u (v ∷ ts) = elim (Bool-cases (after u v)) [
  | inl later ↦
      let (t, e, d) = fold_earlier-IsEarliest v ts in
      (
        t,
        rw later e,
        record { member = mem-cons_of_mem u d.member; least = (ground arith, d.least) },
      )
  | inr sooner ↦
      let (t, e, d) = fold_earlier-IsEarliest u ts in
      (
        t,
        rw sooner e,
        record { member = mem_second v d.member; least = (d.least.0, (ground arith, d.least.1)) },
      )
]

module _ {Quantity : Type 0} where
  abbrev pub times : List (ContainerMetricsPoint Quantity) → List Time
  times = map (λ c. c.point.timestamp)

  containers_from_lem :
      (cs : List (ContainerMetricsPoint Quantity)) (done : List (ContainerMetrics Quantity))
      (e : Option Time)
      → containers_from (length done) cs (done ++ replicate (length cs) zero_container_metrics) e
        ≡ (done ++ map container_metrics cs, fold_earlier e (times cs))
  unfolding containers_from fold_earlier
  containers_from_lem [] done e = refl
  containers_from_lem (c ∷ cs) done e =
      let m = container_metrics c in
      let blank = replicate (length cs) zero_container_metrics in
      rw (set-append, ← length-snoc done m, ← append_assoc done (m ∷ []) blank)
        (containers_from_lem cs (done ++ m ∷ []) (earlier e c.point.timestamp)
          ∙ rw (append_assoc done (m ∷ []) (map container_metrics cs)))

  -- A pod's metrics are its containers', in order; its time is the earliest of their times, and the
  -- zero time where it has no container.
  pub record IsPodMetrics (p : PodMetricsPoint Quantity)
      (r : TimeInfo × List (ContainerMetrics Quantity)) : Type 0 where
    pub window : r.0.window ≡ kubernetes_cadvisor_window
    pub containers : r.1 ≡ map container_metrics p.containers
    pub no_container : p.containers ≡ [] → r.0.timestamp ≡ zero_time
    pub earliest : p.containers ≢ [] → IsEarliest r.0.timestamp (times p.containers)

  -- The metrics of a pod are those of its containers, in order. Their time is the earliest of the
  -- containers' times, and the zero time for a pod that has none.
  pub pod_metrics-IsPodMetrics : (p : PodMetricsPoint Quantity) → IsPodMetrics p (pod_metrics p)
  unfolding pod_metrics fold_earlier earlier
  pod_metrics-IsPodMetrics p = record {
    window = refl;
    containers = ap (λ r. r.0) (containers_from_lem p.containers [] none);
    no_container = λ e. rw (containers_from_lem p.containers [] none, e, fold_earlier);
    earliest = λ h. rw (containers_from_lem p.containers [] none) (earliest_of p.containers h);
  }
    where
      earliest_of :
          (cs : List (ContainerMetricsPoint Quantity))
          → cs ≢ []
          → IsEarliest (timestamp_or_zero (fold_earlier none (times cs))) (times cs)
      earliest_of [] h = absurd (h refl)
      earliest_of (c ∷ cs) h =
          let (t, e, d) = fold_earlier-IsEarliest c.point.timestamp (times cs) in rw e d
