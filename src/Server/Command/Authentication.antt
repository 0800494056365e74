-- ===== src/Server/Command/Authentication.antt =====
-- No command line turns the authentication of the API server off.
use my_learning_journey.Base.{
  ℕ, zero, suc, get_elem?, some_injective, ◌≡◌, refl, sym, ap, ◌∙◌, inl, inr, String, Bool, false,
  none, some, List, [], ◌∷◌, Result, Result-cases, ok, ok_injective, err, returns,
  returns_injective, All,
}
use my_learning_journey.Errors.{Error}
use my_learning_journey.Server.{
  MetricsServerOptions, new_metrics_server_options, Environment, Server, Ran,
}
use my_learning_journey.Server.Settings.{run-IsAssembled}
use my_learning_journey.Server.Command.{
  Flag, Parsers, set_with, flags, declared, help, options, Cobra, execute,
}

-- What the flags make of the options: any of them, any number of times, with any texts.
pub data Sets (fs : List Flag) (o : MetricsServerOptions) : MetricsServerOptions → Type 0 where
  start : Sets fs o o
  set :
      {p q : MetricsServerOptions} (i : ℕ) (f : Flag) (changed : Bool) (text : String)
      → Sets fs o p
      → get_elem? fs i ≡ some f
      → f.set changed text p ≡ ok q
      → Sets fs o q

-- As it is documented: parsing changes a variable only by its flag.
abbrev pub IsCobra : Cobra → Type 0
IsCobra cobra =
    (fs : List Flag) (o p : MetricsServerOptions) → cobra.parse fs o ≡ ok (options p) → Sets fs o p

-- A flag that leaves the switch for tests alone.
abbrev Keeps : Flag → Type 0
Keeps f =
    (changed : Bool) (text : String) (o p : MetricsServerOptions)
    → f.set changed text o ≡ ok p
    → p.disable_auth_for_testing ≡ o.disable_auth_for_testing

set_with-keeps :
    {A : Type 0} (value : Result Error A) (write : A → MetricsServerOptions)
    (o p : MetricsServerOptions)
    → ((v : A) → (write v).disable_auth_for_testing ≡ o.disable_auth_for_testing)
    → set_with value write ≡ ok p
    → p.disable_auth_for_testing ≡ o.disable_auth_for_testing
set_with-keeps (ok v) write o p keeps h =
    ap {A = MetricsServerOptions} (λ q. q.disable_auth_for_testing) (sym (ok_injective h)) ∙ keeps v
set_with-keeps (err e) write o p keeps h = cc

flags-Keeps : (parsers : Parsers) → All Keeps (flags parsers)
unfolding flags
flags-Keeps parsers = (
  λ changed text o p h. set_with-keeps (parsers.duration text) _ o p (λ v. refl) h,
  (
    λ changed text o p h. set_with-keeps (parsers.bool text) _ o p (λ v. refl) h,
    (
      λ changed text o p h. set_with-keeps (parsers.bool text) _ o p (λ v. refl) h,
      (
        λ changed text o p h. set_with-keeps (parsers.int text) _ o p (λ v. refl) h,
        (
          λ changed text o p h.
              set_with-keeps (ok text) (λ v. record o { kubeconfig = v }) o p (λ v. refl) h,
          (
            λ changed text o p h.
                set_with-keeps (parsers.string_slice changed o.kubelet_preferred_address_types text)
                  _ o p (λ v. refl) h,
            (
              λ changed text o p h.
                  set_with-keeps (ok text) (λ v. record o { kubelet_ca_file = v }) o p (λ v. refl)
                    h,
              tt,
            ),
          ),
        ),
      ),
    ),
  ),
)

All-get_elem? :
    (P : Flag → Type 0) (fs : List Flag) (i : ℕ) (f : Flag)
    → All P fs
    → get_elem? fs i ≡ some f
    → P f
All-get_elem? P [] i f h e = cc
All-get_elem? P (g ∷ fs) zero f h e = rw (← some_injective e) h.0
All-get_elem? P (g ∷ fs) (suc i) f h e = All-get_elem? P fs i f h.1 e

Sets-keeps :
    (parsers : Parsers) (o p : MetricsServerOptions)
    → Sets (flags parsers) o p
    → p.disable_auth_for_testing ≡ o.disable_auth_for_testing
Sets-keeps parsers o p start = refl
Sets-keeps parsers o p (set {p = q} i f changed text before at h) =
    All-get_elem? Keeps (flags parsers) i f (flags-Keeps parsers) at changed text q p h
    ∙ Sets-keeps parsers o q before

module _ {Other Rest Request Transport Summary Completed Api Quantity Collector Registry : Type 0}
    (env : Environment Other Rest Request Transport Summary Completed Api Quantity Collector
      Registry)
    (parsers : Parsers) (cobra : Cobra) where
  -- Whatever the command line is, a server whose manager is started has the authentication and the
  -- authorization applied, both without an error.
  pub execute-authenticates :
      (registry : Registry) (ran : Ran Transport Api Quantity Registry)
      (s : Server Transport Api Quantity)
      → IsCobra cobra
      → execute env parsers cobra registry ≡ returns ran
      → ran.started ≡ some s
      → (env.authentication ≡ none) × (env.authorization ≡ none)
  unfolding execute declared new_metrics_server_options
  execute-authenticates registry ran s is h started =
      let parsed = cobra.parse (flags parsers) (declared new_metrics_server_options) in
      elim (Result-cases parsed) [
        | inr (cause, e) ↦
            let same = returns_injective (rw (e, execute) at h) in
            cc (ap (λ r. r.started) same ∙ started)
        | inl (help, e) ↦
            let same = returns_injective (rw (e, execute) at h) in
            cc (ap (λ r. r.started) same ∙ started)
        | inl (options o, e) ↦
            let parts = run-IsAssembled env o registry ran s (rw (e, execute) at h) started in
            let off : o.disable_auth_for_testing ≡ false =
              Sets-keeps parsers _ o (is (flags parsers) _ o e) in
            elim parts.authenticates [ inl on ↦ cc (sym on ∙ off) | inr both ↦ both ]
      ]
