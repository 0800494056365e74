-- ===== src/Metrics/Names.antt =====
-- The names of metrics and of their labels, as the prometheus library documents them.
use Prim.Native.String as Text
use Prim.Native.Char.{code}
use my_learning_journey.Base.{
  ℕ, String, Bool, true, false, ◌&&◌, ◌||◌, not, List, [], ◌∷◌, leb, nat_eq, ◌==◌,
  string_comparable, if◌then◌else◌,
}
use my_learning_journey.Metrics.Histograms.{Opts}

-- What a registry knows of a metric: its full name, its help text, and its variable labels.
pub record Description : Type 0 where
  pub name : String
  pub help : String
  pub labels : List String

abbrev joined : String → String → String
joined a b = Text.◌++◌ a (Text.◌++◌ "_" b)

-- The parts of the name that are there, joined with "_"; without the last one there is no name.
unfoldable pub full_name : Opts → String
full_name opts =
    let in_subsystem =
      if opts.subsystem == "" then opts.name else joined opts.subsystem opts.name in
    if opts.name == ""
    then ""
    else if opts.namespace == ""
    then in_subsystem
    else joined opts.namespace in_subsystem

abbrev pub description : Opts → List String → Description
description opts labels = record { name = full_name opts; help = opts.help; labels = labels }

abbrev within : ℕ → ℕ → ℕ → Bool
within least most c = leb least c && leb c most

-- A letter of ASCII or "_", a digit, and ":".
abbrev is_letter : ℕ → Bool
is_letter c = within 65 90 c || within 97 122 c || nat_eq c 95

abbrev is_digit : ℕ → Bool
is_digit c = within 48 57 c

abbrev is_colon : ℕ → Bool
is_colon c = nat_eq c 58

unfoldable pub only : (ℕ → Bool) → String → Bool
only test Text.[] = true
only test (Text.◌∷◌ c s) = test (code c) && only test s

-- `[a-zA-Z_][a-zA-Z0-9_:]*`
unfoldable pub is_metric_name : String → Bool
unfolding only
is_metric_name Text.[] = false
is_metric_name (Text.◌∷◌ c s) =
    is_letter (code c) && only (λ d. is_letter d || is_digit d || is_colon d) s

-- Two underscores at the beginning are for labels that the library makes itself.
unfoldable pub is_reserved : String → Bool
is_reserved (Text.◌∷◌ a (Text.◌∷◌ b s)) = nat_eq (code a) 95 && nat_eq (code b) 95
is_reserved s = false

-- `[a-zA-Z_][a-zA-Z0-9_]*`
unfoldable pub is_label_name : String → Bool
unfolding only is_reserved
is_label_name Text.[] = false
is_label_name (Text.◌∷◌ c s) =
    is_letter (code c)
    && only (λ d. is_letter d || is_digit d) s
    && not (is_reserved (Text.◌∷◌ c s))

abbrev pub has : String → List String → Bool
has l [] = false
has l (m ∷ ms) = (l == m) || has l ms

-- Every label has a name that is allowed, and no name comes twice.
unfoldable pub are_labels : List String → Bool
unfolding is_label_name
are_labels [] = true
are_labels (l ∷ ls) = is_label_name l && not (has l ls) && are_labels ls

-- What can be registered where the name is not taken.
unfoldable pub is_valid : Description → Bool
unfolding is_metric_name are_labels
is_valid d = not (d.help == "") && is_metric_name d.name && are_labels d.labels
