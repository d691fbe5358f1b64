-- ===== src/Metrics/Series.antt =====
-- metrics.py: counters, gauges and histograms, and their lines. Python's numbers are a parameter:
-- `literal` is a float as the source writes it, `integral` gives int(v) when v == int(v), and
-- `rounded` is the text of round(v, 3).
use exec_rest_api.Base.{
  ℕ, suc, ◌+◌, Bool, Option, none, some, List, [], ◌∷◌, ◌++◌, Text, codes, ℤ, map, if◌then◌else◌,
  replicate, length,
}
use exec_rest_api.Encoding.{decimal}
use exec_rest_api.Metrics.Dicts.{
  Labels, sorted_labels, find_labels, store, labels_of, has_no_labels, at_labels, format_labels,
  int_text,
}

pub record Numbers : Type 1 where
  pub Number : Type 0
  pub of_int : ℤ → Number
  pub literal : Text → Number
  pub plus : Number → Number → Number
  pub at_most : Number → Number → Bool
  pub integral : Number → Option ℤ
  pub rounded : Number → Text

pub record Counter : Type 0 where
  pub name : Text
  pub help_text : Text
  pub values : List (Labels × ℕ)

unfoldable pub inc : Labels → ℕ → Counter → Counter
inc labels amount c = record c {
  values = store labels (at_labels 0 c.values labels + amount) c.values;
}

abbrev heading : Text → Text → Text → List Text
heading name help_text kind =
    (codes "# HELP " ++ name ++ codes " " ++ help_text)
    ∷ (codes "# TYPE " ++ name ++ codes " " ++ kind)
    ∷ []

abbrev metric_line : Text → Labels → Text → Text
metric_line name labels value = name ++ format_labels labels ++ codes " " ++ value

unfoldable pub render_counter : Counter → List Text
render_counter c =
    if has_no_labels c.values
    then []
    else heading c.name c.help_text (codes "counter")
      ++ map (λ ls. metric_line c.name ls (decimal (at_labels 0 c.values ls)))
          (sorted_labels (labels_of c.values))

module _ (N : Numbers) where
  unfoldable pub default_buckets : List (N.Number)
  default_buckets = map N.literal (
      codes "0.005"
      ∷ codes "0.01"
      ∷ codes "0.025"
      ∷ codes "0.05"
      ∷ codes "0.1"
      ∷ codes "0.25"
      ∷ codes "0.5"
      ∷ codes "1.0"
      ∷ codes "2.5"
      ∷ codes "5.0"
      ∷ codes "10.0"
      ∷ [])

  unfoldable pub format_number : N.Number → Text
  format_number v = elim (N.integral v) [ some z ↦ int_text z | none ↦ N.rounded v ]

  pub record Gauge : Type 0 where
    pub name : Text
    pub help_text : Text
    pub values : List (Labels × N.Number)

  unfoldable pub set : Labels → N.Number → Gauge → Gauge
  set labels value g = record g { values = store labels value g.values }

  unfoldable pub render_gauge : Gauge → List Text
  render_gauge g =
      if has_no_labels g.values
      then []
      else heading g.name g.help_text (codes "gauge")
        ++ map
            (λ ls.
              metric_line g.name ls
                (format_number (at_labels (N.literal (codes "0.0")) g.values ls)))
            (sorted_labels (labels_of g.values))

  pub record Histogram : Type 0 where
    pub name : Text
    pub help_text : Text
    pub buckets : List (Labels × List ℕ)
    pub sums : List (Labels × N.Number)
    pub counts : List (Labels × ℕ)

  abbrev pub zero_number : N.Number
  zero_number = N.literal (codes "0.0")

  -- the counts of new labels
  abbrev pub zeros : List ℕ
  zeros = replicate (length default_buckets) 0

  -- the loop over the bounds
  abbrev pub bump : N.Number → List (N.Number) → List ℕ → List ℕ
  bump value [] cs = cs
  bump value (b ∷ bs) [] = []
  bump value (b ∷ bs) (c ∷ cs) = (if N.at_most value b then suc c else c) ∷ bump value bs cs

  abbrev pub ensured : Option (List ℕ) → Labels → Histogram → Histogram
  ensured (some cs) labels h = h
  ensured none labels h = record h {
    buckets = store labels zeros h.buckets;
    sums = store labels zero_number h.sums;
    counts = store labels 0 h.counts;
  }

  abbrev pub with_labels : Labels → Histogram → Histogram
  with_labels labels h = ensured (find_labels h.buckets labels) labels h

  unfoldable pub observe : Labels → N.Number → Histogram → Histogram
  observe labels value h =
      let i = with_labels labels h in
      record i {
        buckets =
            store labels (bump value default_buckets (at_labels [] i.buckets labels)) i.buckets;
        sums = store labels (N.plus (at_labels zero_number i.sums labels) value) i.sums;
        counts = store labels (suc (at_labels 0 i.counts labels)) i.counts;
      }

  abbrev le_labels : Labels → Text → Labels
  le_labels ls bound = ls ++ (codes "le", bound) ∷ []

  -- the lines of the bounds, from the counts in the same order
  abbrev bucket_lines : Text → Labels → List (N.Number) → List ℕ → List Text
  bucket_lines name ls [] cs = []
  bucket_lines name ls (b ∷ bs) [] = []
  bucket_lines name ls (b ∷ bs) (c ∷ cs) =
      metric_line (name ++ codes "_bucket") (le_labels ls (format_number b)) (decimal c)
      ∷ bucket_lines name ls bs cs

  abbrev labels_lines : Histogram → Labels → List Text
  labels_lines h ls =
      bucket_lines h.name ls default_buckets (at_labels [] h.buckets ls)
      ++ metric_line (h.name ++ codes "_bucket") (le_labels ls (codes "+Inf"))
          (decimal (at_labels 0 h.counts ls))
        ∷ metric_line (h.name ++ codes "_sum") ls (format_number (at_labels zero_number h.sums ls))
        ∷ metric_line (h.name ++ codes "_count") ls (decimal (at_labels 0 h.counts ls))
        ∷ []

  abbrev all_lines : Histogram → List Labels → List Text
  all_lines h [] = []
  all_lines h (ls ∷ more) = labels_lines h ls ++ all_lines h more

  unfoldable pub render_histogram : Histogram → List Text
  render_histogram h =
      if has_no_labels h.counts
      then []
      else heading h.name h.help_text (codes "histogram")
        ++ all_lines h (sorted_labels (labels_of h.counts))

  abbrev pub histogram : Text → Text → Histogram
  histogram name help_text = record {
    name = name;
    help_text = help_text;
    buckets = [];
    sums = [];
    counts = [];
  }
