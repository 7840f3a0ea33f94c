-- ===== src/Domain/Evidence/Resolve/Example.antt =====
-- The resolution of a quote in a small document.
use codex_research_skill.Base.{◌≡◌, refl, false, none, some, [], ok}
use codex_research_skill.Text.{codes, find_text, find_next, stands_at, ends_with, same}
use codex_research_skill.Domain.Evidence.{unique_text_match, match_loop, context_matches}
use codex_research_skill.Domain.Evidence.Selectors.{
  Selector, text_quote, validate_selector, exact_of,
}
use codex_research_skill.Domain.Evidence.Pointers.{Json}
use codex_research_skill.Domain.Evidence.Resolve.{
  EvidenceDocument, Python, span, require_text, check_quote, check_exact, resolve_selector,
  resolve_exact_evidence,
}
use codex_research_skill.Domain.Evidence.Resolve.Sound.{Shows, resolve_exact_evidence-Shows}

abbrev no_python : Python
no_python = record {
  hexdigest = λ text. text;
  loads = λ text. some (Json.text text);
  dumps = λ value. [];
  digits = record { isdigit = λ text. false; int = λ text. none };
}

abbrev document : EvidenceDocument
document = record {
  text = some (codes "one fact\nthe fact");
  pages = none;
  json_value = none;
  dom_text = [];
}

abbrev selector : Selector
selector = text_quote (codes "fact") (some (codes "the ")) none none none

second_fact_resolves :
    resolve_exact_evidence no_python document selector (codes "fact") none none
    ≡ ok (span "text_quote" (13, 17))
unfolding resolve_exact_evidence check_quote check_exact exact_of validate_selector resolve_selector
    require_text same unique_text_match match_loop find_text find_next stands_at context_matches
    ends_with
second_fact_resolves = refl

resolve_exact_evidence-Shows_example :
    Shows no_python document selector (span "text_quote" (13, 17)) (codes "fact")
resolve_exact_evidence-Shows_example =
    resolve_exact_evidence-Shows no_python document selector (codes "fact") none none
      (span "text_quote" (13, 17)) second_fact_resolves
