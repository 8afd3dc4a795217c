-- ===== src/Ingest/Severity.antt =====
-- internal/ingest/otlp.go: the severity gate. `strings.ToUpper` maps all of Unicode: the mapping is
-- a parameter. A text is the list of its bytes.
use otelcontext.Base.{
  ℕ, Bool, true, false, ◌&&◌, ◌||◌, [], ◌∷◌, ◌==◌, leb, if◌then◌else◌, Text, text,
}

-- `strings.HasPrefix(s, p)`
abbrev pub has_prefix : Text → Text → Bool
has_prefix s [] = true
has_prefix [] (c ∷ p) = false
has_prefix (a ∷ s) (c ∷ p) = a == c && has_prefix s p

-- `strings.Contains(s, p)`
abbrev pub contains : Text → Text → Bool
contains [] p = has_prefix [] p
contains (a ∷ s) p = has_prefix (a ∷ s) p || contains s p

module _ (to_upper : Text → Text) where
  -- The level of a severity text; the inner fallback of the code repeats two of the tests.
  unfoldable pub severity_rank : Text → ℕ
  severity_rank level =
      let upper = to_upper level in
      if contains upper (text "DEBUG")
      then 10
      else if contains upper (text "INFO")
      then 20
      else if contains upper (text "WARN")
      then 30
      else if contains upper (text "ERR")
      then 40
      else if contains upper (text "FATAL")
      then 50
      else if contains upper (text "WARN")
      then 30
      else if contains upper (text "ERR")
      then 40
      else 20

  unfoldable pub should_ingest_severity : Text → ℕ → Bool
  should_ingest_severity level min_level = leb min_level (severity_rank level)
