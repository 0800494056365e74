-- ===== src/Server/Registration.antt =====
-- The registrations of MetricsServerOptions.Run, whatever the resolution is.
use mathlib.Core.List.{Mem, mem-cons}
use mathlib.Core.HLevel.{⊥_prop}
use mathlib.Core.Logic.Or as Or
use my_learning_journey.Base.{
  ◌≡◌, ◌≢◌, refl, ap, ◌∙◌, ◌⊎◌, inl, inr, true, false, String, some, List, [], ◌∷◌, ◌++◌,
  Result-cases, err, Run, returns, ◌>>=◌, get_elem?, ◌*◌,
}
use my_learning_journey.Base.Int.{pos, ◌<ℤ◌}
use my_learning_journey.Golang.{Duration}
use my_learning_journey.Errors.{Error}
use my_learning_journey.Float.{scrape_timeout_of}
use my_learning_journey.Float.Double.{Double, one}
use my_learning_journey.Metrics.{buckets_for_scrape_duration}
use my_learning_journey.Metrics.Increasing.{Increasing}
use my_learning_journey.Metrics.Names.{Description, description, full_name, is_valid, has}
use my_learning_journey.Metrics.Histograms.{Opts, HistogramOpts, Prometheus}
use my_learning_journey.Metrics.Buckets.{buckets_for_scrape_duration-IsBucketsFor}
use my_learning_journey.Sources.SourceManager.Durations as Scraper
use my_learning_journey.Manager.Durations as Tick
use my_learning_journey.Server.{
  MetricsServerOptions, Environment, Ran, prepare, register_metrics, api_server, start, run,
}
use my_learning_journey.Api.{GenericConfig}
use my_learning_journey.Sources.Kubelet.{KubeletClient}
use my_learning_journey.Server.Settings.{run-registered, run-failed}

-- What the prometheus library documents: the default buckets are in order, from a positive one to
-- 10; a histogram is made of buckets in strictly increasing order, and has no label "le" of its
-- own; and a metric is registered where its help text is not empty, its full name and its labels
-- have valid names, no label comes twice, and no metric of its full name is registered. `described`
-- and `registered` say what a metric is, and which names are taken.
pub record IsPrometheus {Collector Registry : Type 0} (prometheus : Prometheus Collector Registry)
    (described : Collector → Description) (registered : Registry → List String) : Type 0 where
  pub least : Double
  pub init : List Double
  pub first_bucket : get_elem? prometheus.def_buckets 0 ≡ some least
  pub positive : pos 0 <ℤ least
  pub last_bucket : prometheus.def_buckets ≡ init ++ pos (10 * one) ∷ []
  pub increasing : Increasing prometheus.def_buckets
  pub histogram :
      (opts : HistogramOpts)
      → Increasing opts.buckets
      → (h : Collector) × (prometheus.new_histogram opts ≡ returns h)
        × (described h ≡ description opts.opts [])
  pub histogram_vec :
      (opts : HistogramOpts) (labels : List String)
      → Increasing opts.buckets
      → has "le" labels ≡ false
      → (h : Collector) × (prometheus.new_histogram_vec opts labels ≡ returns h)
        × (described h ≡ description opts.opts labels)
  pub gauge_vec :
      (opts : Opts) (labels : List String)
      → (h : Collector) × (prometheus.new_gauge_vec opts labels ≡ returns h)
        × (described h ≡ description opts labels)
  pub counter_vec :
      (opts : Opts) (labels : List String)
      → (h : Collector) × (prometheus.new_counter_vec opts labels ≡ returns h)
        × (described h ≡ description opts labels)
  pub register :
      (h : Collector) (r : Registry)
      → is_valid (described h) ≡ true
      → ¬ Mem (described h).name (registered r)
      → (s : Registry) × (prometheus.must_register h r ≡ returns s)
        × (registered s ≡ (described h).name ∷ registered r)

abbrev pub scraper_name : String
scraper_name = "metrics_server_scraper_duration_seconds"

abbrev pub tick_name : String
tick_name = "metrics_server_manager_tick_duration_seconds"

-- The step from buckets to a registered histogram, of both functions.
abbrev chain :
    {Collector Registry : Type 0}
    → Run (List Double)
    → (List Double → Run Collector)
    → (Collector → Registry → Run Registry)
    → Registry
    → Run (Collector × Registry)
chain buckets make register registry =
    buckets >>= λ bs. make bs >>= λ h. register h registry >>= λ r. returns (h, r)

chain-returns :
    {Collector Registry : Type 0} (buckets : Run (List Double)) (make : List Double → Run Collector)
    (register : Collector → Registry → Run Registry) (registry : Registry) (bs : List Double)
    (h : Collector) (r : Registry)
    → buckets ≡ returns bs
    → make bs ≡ returns h
    → register h registry ≡ returns r
    → chain buckets make register registry ≡ returns (h, r)
chain-returns buckets make register registry bs h r e f g =
    rw e (rw (f, ◌>>=◌) (rw (g, ◌>>=◌) refl))

module _ {Collector Registry : Type 0} (prometheus : Prometheus Collector Registry)
    (described : Collector → Description) (registered : Registry → List String)
    (is : IsPrometheus prometheus described registered) where
  -- A run that registers a histogram of that name.
  abbrev Registers : String → Registry → Run (Collector × Registry) → Type 0
  Registers name registry answer =
      (h : Collector) × (r : Registry) × (answer ≡ returns (h, r))
      × (registered r ≡ name ∷ registered registry)

  -- A metric whose description is valid is registered under its name.
  pub register_described :
      (h : Collector) (r : Registry) (d : Description)
      → described h ≡ d
      → is_valid d ≡ true
      → ¬ Mem d.name (registered r)
      → (s : Registry) × (prometheus.must_register h r ≡ returns s)
        × (registered s ≡ d.name ∷ registered r)
  register_described h r d e valid fresh =
      let (s, f, now) = is.register h r (rw e valid) (rw e fresh) in (s, f, rw e at now)

  chain-Registers :
      (d : Description) (duration : Duration) (make : List Double → Run Collector)
      (registry : Registry)
      → ((bs : List Double)
          → Increasing bs
          → (h : Collector) × (make bs ≡ returns h) × (described h ≡ d))
      → is_valid d ≡ true
      → ¬ Mem d.name (registered registry)
      → Registers d.name registry (
          chain
            (buckets_for_scrape_duration prometheus.def_buckets duration)
            make
            prometheus.must_register
            registry)
  chain-Registers d duration make registry makes valid fresh =
      let (bs, e, good) =
        buckets_for_scrape_duration-IsBucketsFor is.least prometheus.def_buckets is.init
          is.first_bucket is.positive is.last_bucket is.increasing duration in
      let (h, f, n) = makes bs good.increasing in
      let (r, g, now) = register_described h registry d n valid fresh in
      (h, r, chain-returns _ make prometheus.must_register registry bs h r e f g, now)

  scraper-Registers :
      (d : Duration) (registry : Registry)
      → ¬ Mem scraper_name (registered registry)
      → Registers scraper_name registry (Scraper.register_duration_metrics prometheus d registry)
  unfolding Scraper.register_duration_metrics full_name is_valid
  scraper-Registers d registry fresh =
      chain-Registers
        (record {
          name = scraper_name;
          help = "Time spent scraping sources in seconds.";
          labels = "source" ∷ [];
        })
        d _ registry (λ bs up. is.histogram_vec _ _ up refl) refl fresh

  tick-Registers :
      (d : Duration) (registry : Registry)
      → ¬ Mem tick_name (registered registry)
      → Registers tick_name registry (Tick.register_duration_metrics prometheus d registry)
  unfolding Tick.register_duration_metrics full_name is_valid
  tick-Registers d registry fresh =
      chain-Registers
        (record {
          name = tick_name;
          help = "The total time spent collecting and storing metrics in seconds.";
          labels = [];
        })
        d _ registry (λ bs up. is.histogram _ up) refl fresh

names-differ : tick_name ≢ scraper_name
names-differ e = cc

module _ {Other Rest Request Transport Summary Completed Api Quantity Collector Registry : Type 0}
    (env : Environment Other Rest Request Transport Summary Completed Api Quantity Collector
      Registry)
    (o : MetricsServerOptions) (described : Collector → Description)
    (registered : Registry → List String)
    (is : IsPrometheus env.prometheus described registered) where
  start-registry :
      (generic : GenericConfig) (client : KubeletClient Transport) (registry : Registry)
      → (start env o generic client registry).registry ≡ registry
  unfolding start
  start-registry generic client registry = elim (Result-cases (api_server env o generic)) [
    | inl (api, e) ↦ rw (e, start) refl
    | inr (cause, e) ↦ rw (e, start) refl
  ]

  pub register_metrics-both :
      (registry : Registry)
      → ¬ Mem scraper_name (registered registry)
      → ¬ Mem tick_name (registered registry)
      → (r : Registry) × (register_metrics env o registry ≡ returns r)
        × (registered r ≡ tick_name ∷ scraper_name ∷ registered registry)
  unfolding register_metrics
  register_metrics-both registry no_scraper no_tick =
      let (h, r, e, now) =
        scraper-Registers env.prometheus described registered is
          (scrape_timeout_of o.metric_resolution) registry no_scraper in
      let fresh : ¬ Mem tick_name (registered r) =
        rw now (λ m. Or.elim ⊥_prop (mem-cons.0 m) names-differ no_tick) in
      let (g, s, f, then) =
        tick-Registers env.prometheus described registered is o.metric_resolution r fresh in
      (s, rw e (rw (f, ◌>>=◌) refl), then ∙ ap (λ l. tick_name ∷ l) now)

  -- `Run` gets past its registrations, whatever the options are. Where its preparation fails it
  -- leaves the registry as it was; where it succeeds, the registry has both histograms.
  pub run-returns :
      (registry : Registry)
      → ¬ Mem scraper_name (registered registry)
      → ¬ Mem tick_name (registered registry)
      → (ran : Ran Transport Api Quantity Registry) × (run env o registry ≡ returns ran)
        × (((e : Error) × (prepare env o ≡ err e) × (ran.registry ≡ registry))
            ⊎ (registered ran.registry ≡ tick_name ∷ scraper_name ∷ registered registry))
  run-returns registry no_scraper no_tick = elim (Result-cases (prepare env o)) [
    | inr (cause, e) ↦ (_, run-failed env o cause registry e, inl (cause, e, refl))
    | inl (p, e) ↦
        let (r, f, both) = register_metrics-both registry no_scraper no_tick in
        (
          start env o p.0 p.1 r,
          run-registered env o p.0 p.1 registry r e f,
          inr (rw (start-registry p.0 p.1 r) both),
        )
  ]
