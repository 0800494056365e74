-- ===== src/Storage/Pods/Items.antt =====
-- MetricStorage.getPodMetrics: the items that its loop collects.
use mathlib.Core.Option
use mathlib.Core.List.{append_assoc, append-nil}
use my_learning_journey.Base.{
  length-snoc_same, ℕ, suc, ◌≡◌, refl, ◌∙◌, inl, inr, Bool, true, false, Bool-cases, Option, none,
  some, List, [], ◌∷◌, ◌++◌, ok, returns, arith, map, length, get_elem?, get_elem?-append,
  length-snoc, ◌==◌, string_comparable,
}
use my_learning_journey.Golang.{Time}
use my_learning_journey.Sources.{PodMetricsPoint}
use my_learning_journey.Provider.{
  TimeInfo, NamespacedName, namespaced_name_comparable, ContainerMetrics,
}
use my_learning_journey.Sink.{pod_metrics, zero_time_info}
use my_learning_journey.Sink.Latest.{pod_answers}
use my_learning_journey.Storage.Pods.{
  Pod, PodMetrics, MetricStorage, pod_running, namespaced_name, pod_item, items_from,
  get_pod_metrics,
}

module _ {Quantity : Type 0} where
  -- An item for each running pod that has containers, the clock read in its round.
  abbrev pub item_if :
      Bool
      → Time
      → Pod
      → TimeInfo
      → Option (List (ContainerMetrics Quantity))
      → List (PodMetrics Quantity)
  item_if true now pod t (some cs) = pod_item now pod t cs ∷ []
  item_if true now pod t none = []
  item_if false now pod t cs = []

  abbrev pub items :
      (ℕ → Time)
      → ℕ
      → List Pod
      → List TimeInfo
      → List (Option (List (ContainerMetrics Quantity)))
      → List (PodMetrics Quantity)
  items now i (pod ∷ pods) (t ∷ ts) (cs ∷ css) =
      item_if (pod.phase == pod_running) (now i) pod t cs ++ items now (suc i) pods ts css
  items now i _ _ _ = []

  items_from-cons :
      (now : ℕ → Time) (ts : List TimeInfo) (css : List (Option (List (ContainerMetrics Quantity))))
      (i : ℕ) (pod : Pod) (pods : List Pod) (res : List (PodMetrics Quantity)) (t : TimeInfo)
      (cs : Option (List (ContainerMetrics Quantity)))
      → get_elem? css i ≡ some cs
      → get_elem? ts i ≡ some t
      → items_from now ts css i (pod ∷ pods) res
        ≡ items_from now ts css
            (suc i)
            pods
            (res ++ item_if (pod.phase == pod_running) (now i) pod t cs)
  unfolding items_from
  items_from-cons now ts css i pod pods res t none e f =
      elim (Bool-cases (pod.phase == pod_running)) [
        | inr g ↦ rw (g, items_from, append-nil) refl
        | inl g ↦ rw (g, items_from) (rw (e, append-nil) refl)
      ]
  items_from-cons now ts css i pod pods res t (some cs) e f =
      elim (Bool-cases (pod.phase == pod_running)) [
        | inr g ↦ rw (g, items_from, append-nil) refl
        | inl g ↦ rw (g, items_from) (rw e (rw f refl))
      ]

  items_from-items :
      (now : ℕ → Time) (pods : List Pod) (seen ts : List TimeInfo)
      (seen_cs css : List (Option (List (ContainerMetrics Quantity))))
      (res : List (PodMetrics Quantity))
      → length seen ≡ length seen_cs
      → length ts ≡ length pods
      → length css ≡ length pods
      → items_from now (seen ++ ts) (seen_cs ++ css) (length seen) pods res
        ≡ returns (res ++ items now (length seen) pods ts css)
  items_from-items now [] seen [] seen_cs [] res p q r = unfold items_from in rw append-nil
  items_from-items now [] seen (t ∷ ts) seen_cs css res p q r = absurd (omega arith)
  items_from-items now [] seen [] seen_cs (cs ∷ css) res p q r = absurd (omega arith)
  items_from-items now (pod ∷ pods) seen [] seen_cs css res p q r = absurd (omega arith)
  items_from-items now (pod ∷ pods) seen (t ∷ ts) seen_cs [] res p q r = absurd (omega arith)
  items_from-items now (pod ∷ pods) seen (t ∷ ts) seen_cs (cs ∷ css) res p q r =
      let item = item_if (pod.phase == pod_running) (now (length seen)) pod t cs in
      items_from-cons now _ _ _ pod pods res t cs (rw p (get_elem?-append seen_cs cs css))
        (get_elem?-append seen t ts)
      ∙ rw
          (
            ← append_assoc seen (t ∷ []) ts,
            ← append_assoc seen_cs (cs ∷ []) css,
            ← length-snoc seen t,
            ← append_assoc res item (items now (length (seen ++ t ∷ [])) pods ts css),
          )
          (items_from-items now pods (seen ++ t ∷ []) ts (seen_cs ++ cs ∷ []) css (res ++ item)
            (length-snoc_same seen seen_cs t cs p) (omega arith) (omega arith))

  pub get_pod_metrics-items :
      (m : MetricStorage Quantity) (now : ℕ → Time) (pods : List Pod) (ts : List TimeInfo)
      (css : List (Option (List (ContainerMetrics Quantity))))
      → m.prov.get_container_metrics (map namespaced_name pods) ≡ ok (ts, css)
      → length ts ≡ length pods
      → length css ≡ length pods
      → get_pod_metrics m now pods ≡ returns (ok (items now 0 pods ts css))
  unfolding get_pod_metrics
  get_pod_metrics-items m now pods ts css e p q =
      rw (e, get_pod_metrics) (rw (items_from-items now pods [] ts [] css [] refl p q) refl)

  -- The item of a pod, from the point that it is answered with.
  abbrev pub item_of : Option (PodMetricsPoint Quantity) → Time → Pod → List (PodMetrics Quantity)
  item_of none now pod = []
  item_of (some p) now pod =
      item_if (pod.phase == pod_running) now pod (pod_metrics p).0 (some (pod_metrics p).1)

  abbrev pub items_of :
      (NamespacedName → Option (PodMetricsPoint Quantity))
      → (ℕ → Time)
      → ℕ
      → List Pod
      → List (PodMetrics Quantity)
  items_of find now i [] = []
  items_of find now i (pod ∷ pods) =
      item_of (find (namespaced_name pod)) (now i) pod ++ items_of find now (suc i) pods

  item_if-none : (b : Bool) (now : Time) (pod : Pod) (t : TimeInfo) → item_if b now pod t none ≡ []
  item_if-none true now pod t = refl
  item_if-none false now pod t = refl

  item_if-answer :
      (o : Option (PodMetricsPoint Quantity)) (now : Time) (pod : Pod)
      → item_if
          (pod.phase == pod_running)
          now
          pod
          (Option.get_or (Option.map (λ p. (pod_metrics p).0) o) zero_time_info)
          (Option.map (λ p. (pod_metrics p).1) o)
        ≡ item_of o now pod
  item_if-answer none now pod = item_if-none (pod.phase == pod_running) now pod zero_time_info
  item_if-answer (some p) now pod = refl

  pub items-answers :
      (find : NamespacedName → Option (PodMetricsPoint Quantity)) (now : ℕ → Time) (i : ℕ)
      (pods : List Pod)
      → items now i pods
          (pod_answers find (map namespaced_name pods)).0
          (pod_answers find (map namespaced_name pods)).1
        ≡ items_of find now i pods
  items-answers find now i [] = refl
  items-answers find now i (pod ∷ pods) =
      rw
        (
          item_if-answer (find (namespaced_name pod)) (now i) pod,
          items-answers find now (suc i) pods,
        )
        refl
