-- ===== src/Tests/Releases.antt =====
-- Releases with all flags set and one value for each metric, and the theorems of the gates on them.
use codex_research_skill.Base.{Metrics, ℕ, ◌≤◌, true, some, leb, arith}
use codex_research_skill.Release.Gates.{Flags, Retrieval, assess_release}
use codex_research_skill.Release.Gates.Levels.{
  rank, Better, Earned, assess_release_mono, assess_release-Earned,
}

abbrev hundredths : Metrics
hundredths = record { Number = ℕ; at_least = λ value minimum. leb minimum value }

abbrev all_set : Flags
all_set _ = some true

abbrev at_value : ℕ → Retrieval hundredths
at_value n _ = some (some n)

nineties-Better : Better hundredths (at_value 92) (at_value 100) all_set all_set all_set all_set
nineties-Better = record {
  metrics = λ name minimum h. ground (arith, h);
  automated = λ name h. h;
  operator = λ name h. h;
}

assess_release_mono_example :
    rank (assess_release hundredths (at_value 92) all_set all_set).level
    ≤ rank (assess_release hundredths (at_value 100) all_set all_set).level
assess_release_mono_example =
    assess_release_mono hundredths (at_value 92) (at_value 100) all_set all_set all_set all_set
      nineties-Better

assess_release-Earned_example :
    Earned
      (assess_release hundredths (at_value 92) all_set all_set).level
      (assess_release hundredths (at_value 92) all_set all_set)
assess_release-Earned_example = assess_release-Earned hundredths (at_value 92) all_set all_set
