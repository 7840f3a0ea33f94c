-- ===== src/Ingestion/Reanchor.antt =====
-- ingestion/reanchor.py: exact evidence found again in another text, never fuzzily.
pub mod Sound
use codex_research_skill.Base.{
  ℕ, ◌+◌, ◌-◌, Option, none, [], ◌∷◌, length, take, leb, ◌==◌, if◌then◌else◌, Result, ok, ◌>>=◌,
  ◌>>◌, guard,
}
use codex_research_skill.Text.{Text}
use codex_research_skill.Domain.Evidence.{EvidenceError, unresolved, match_loop}

pub record ReanchorResult : Type 0 where
  pub start : ℕ
  pub end : ℕ
  pub start_line : ℕ
  pub end_line : ℕ

-- the line feeds of a text
unfoldable pub line_feeds : Text → ℕ
line_feeds [] = 0
line_feeds (c ∷ text) = let rest = line_feeds text in if c == b'\n' then 1 + rest else rest

-- `text.count("\n", 0, end) + 1`
unfoldable pub line_at : Text → ℕ → ℕ
unfolding line_feeds
line_at text end = line_feeds (take end text) + 1

-- `max(start, end - 1)`, for an end that is not 0
unfoldable pub last_offset : ℕ → ℕ → ℕ
last_offset start end = if leb start (end - 1) then end - 1 else start

unfoldable pub reanchored : Text → ℕ × ℕ → ReanchorResult
unfolding line_at last_offset
reanchored text (start, end) = record {
  start = start;
  end = end;
  start_line = line_at text start;
  end_line = line_at text (last_offset start end);
}

-- `reanchor_text`, whose loop is that of `_unique_text_match` over the whole text
unfoldable pub reanchor_text :
    Text → Text → Option Text → Option Text → Result EvidenceError ReanchorResult
unfolding match_loop reanchored
reanchor_text text exact prefix suffix = do
  guard (leb 1 (length exact)) unresolved
  found ← match_loop text exact (length text) prefix suffix (length text + 1) 0 none
  ok (reanchored text found)
