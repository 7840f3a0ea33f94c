-- ===== src/Tests/Captures.antt =====
-- The theorems on captures and reanchoring, at a policy and a text.
use codex_research_skill.Base.{◌≡◌, ◌≤◌, refl, true, none, some, [], ◌∷◌, ok}
use codex_research_skill.Text.{Text, codes, find_text, find_next, stands_at, ends_with}
use codex_research_skill.Domain.Evidence.{match_loop, context_matches}
use codex_research_skill.Ingestion.Reanchor.{
  ReanchorResult, line_feeds, line_at, last_offset, reanchored, reanchor_text,
}
use codex_research_skill.Ingestion.Reanchor.Sound.{Reanchors, reanchor_text-Reanchors}
use codex_research_skill.Application.Refresh.Policy.{
  CapturePolicy, evidence_only, extracted_text, full_content, policy_order, post_init, is_in,
  authorize, authorize-within, authorize-default,
}

abbrev new_text : Text
new_text = codes "a fact\nthe fact\nend"

-- The quote runs over the end of its line.
abbrev moved : ReanchorResult
moved = record { start = 11; end = 18; start_line = 2; end_line = 3 }

found_again : reanchor_text new_text (codes "fact\nen") (some (codes "the ")) none ≡ ok moved
unfolding reanchor_text reanchored line_at last_offset line_feeds match_loop find_text find_next
    stands_at context_matches ends_with
found_again = refl

reanchor_text-Reanchors_example :
    Reanchors new_text (codes "fact\nen") (some (codes "the ")) none moved
reanchor_text-Reanchors_example =
    reanchor_text-Reanchors new_text (codes "fact\nen") (some (codes "the ")) none moved found_again

abbrev policy : CapturePolicy
policy = record {
  enabled_modes = "capture" ∷ [];
  default_snapshot_policy = evidence_only;
  max_snapshot_policy = full_content;
  allowed_source_kinds = "web" ∷ "doi" ∷ [];
}

text_authorized : authorize policy "capture" (some extracted_text) "web" ≡ ok extracted_text
unfolding authorize
text_authorized = refl

authorize-within_example :
    (is_in "capture" ("capture" ∷ []) ≡ true)
    × (is_in "web" ("web" ∷ "doi" ∷ []) ≡ true)
    × (policy_order extracted_text ≤ policy_order full_content)
authorize-within_example =
    authorize-within policy "capture" "web" (some extracted_text) extracted_text text_authorized

policy_valid : post_init policy ≡ ok tt
unfolding post_init
policy_valid = refl

authorize-default_example : authorize policy "capture" none "doi" ≡ ok evidence_only
authorize-default_example = authorize-default policy "capture" "doi" policy_valid refl refl
