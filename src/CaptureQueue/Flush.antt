-- ===== src/CaptureQueue/Flush.antt =====
-- capture_queue.py, CaptureQueue.flush: what waits is replayed, and what could not be is kept.
pub mod Keeps
use codex_research_skill.Base.{
  ℕ, suc, ◌+◌, Bool, true, false, not, ◌&&◌, ◌||◌, Option, none, some, List, [], ◌∷◌, ◌++◌, map,
  get_or, if◌then◌else◌, Result, ok, err,
}
use codex_research_skill.Text.{Text, codes, same}
use codex_research_skill.CaptureQueue.Bundles.{Envelope, BackendStatus}
use codex_research_skill.CaptureQueue.Replay.{Backend, replay}

pub record QueueFlushResult : Type 0 where
  pub flushed_queue_ids : List Text
  pub failed_queue_ids : List Text
  pub stored_report_ids : List Text

-- `url.rstrip("/")`
unfoldable pub strip_slashes : Text → Text
strip_slashes [] = []
strip_slashes (c ∷ url) = elim (strip_slashes url) [
  | [] ↦ elim (same (c ∷ []) (codes "/")) [ true ↦ [] | false ↦ c ∷ [] ]
  | d ∷ rest ↦ c ∷ d ∷ rest
]

abbrev is_given : Option Text → Bool
is_given (some (_ ∷ _)) = true
is_given _ = false

-- `_matches_backend`
unfoldable pub matches_backend : Envelope → BackendStatus → Bool
unfolding strip_slashes same
matches_backend bundle status =
    let elsewhere =
      is_given bundle.backend_url
      && is_given status.url
      && not (
          same (strip_slashes (get_or bundle.backend_url []))
            (strip_slashes (get_or status.url []))) in
    not elsewhere
    && same bundle.namespace_kind status.namespace_kind
    && same bundle.namespace_id status.namespace_id

-- what an exception writes on the bundle
unfoldable pub failed : Text → Text → Envelope → Envelope
failed error now bundle = record {
  queue_id = bundle.queue_id;
  created_at = bundle.created_at;
  body = bundle.body;
  backend_url = bundle.backend_url;
  backend_name = bundle.backend_name;
  namespace_kind = bundle.namespace_kind;
  namespace_id = bundle.namespace_id;
  retry_count = bundle.retry_count + 1;
  last_error = some error;
  last_attempted_at = some now;
}

abbrev with_report : Option Text → List Text → List Text
with_report none reports = reports
with_report (some report) reports = report ∷ reports

module _ (bk : Backend) where
  -- What is kept, the lists of the result, and the backend.
  pub record Flushed : Type 0 where
    pub remaining : List Envelope
    pub result : QueueFlushResult
    pub backend : bk.State

  -- how one bundle goes before what the others give
  unfoldable pub kept : Envelope → Flushed → Flushed
  kept bundle rest = record rest { remaining = bundle ∷ rest.remaining }

  unfoldable pub flushed : Envelope → Option Text → Flushed → Flushed
  flushed bundle report rest = record {
    remaining = rest.remaining;
    result = record {
      flushed_queue_ids = bundle.queue_id ∷ rest.result.flushed_queue_ids;
      failed_queue_ids = rest.result.failed_queue_ids;
      stored_report_ids = with_report report rest.result.stored_report_ids;
    };
    backend = rest.backend;
  }

  unfoldable pub refused : Text → Text → Envelope → Flushed → Flushed
  unfolding failed
  refused error now bundle rest = record {
    remaining = failed error now bundle ∷ rest.remaining;
    result = record {
      flushed_queue_ids = rest.result.flushed_queue_ids;
      failed_queue_ids = bundle.queue_id ∷ rest.result.failed_queue_ids;
      stored_report_ids = rest.result.stored_report_ids;
    };
    backend = rest.backend;
  }

  -- the `try` statement
  unfoldable pub by_outcome : Text → Envelope → Result Text (Option Text) → Flushed → Flushed
  unfolding flushed refused
  by_outcome now bundle (ok report) rest = flushed bundle report rest
  by_outcome now bundle (err error) rest = refused error now bundle rest

  -- the loop over what is pending, at the time of the flush
  unfoldable pub flush_loop : Text → BackendStatus → List Envelope → bk.State → Flushed
  unfolding matches_backend kept by_outcome replay
  flush_loop now status [] state = record {
    remaining = [];
    result = record { flushed_queue_ids = []; failed_queue_ids = []; stored_report_ids = [] };
    backend = state;
  }
  flush_loop now status (bundle ∷ bundles) state = elim (matches_backend bundle status) [
    | false ↦ kept bundle (flush_loop now status bundles state)
    | true ↦
        by_outcome now bundle (replay bk bundle state).0
          (flush_loop now status bundles (replay bk bundle state).1)
  ]
