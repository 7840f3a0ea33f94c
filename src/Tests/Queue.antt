-- ===== src/Tests/Queue.antt =====
-- The theorems on the queue, for one waiting capture and a backend that keeps the keys it has seen.
use codex_research_skill.Base.{
  ◌≡◌, refl, Bool, true, false, Option, none, some, List, [], ◌∷◌, ◌++◌, any, ok, Result,
}
use codex_research_skill.Text.{Text, codes, same, is_line_break}
use codex_research_skill.CaptureQueue.Bundles.{
  Authorship, QueuedCaptureBundle, Envelope, capture, BackendStatus, key_of,
}
use codex_research_skill.CaptureQueue.Replay.{Backend}
use codex_research_skill.CaptureQueue.File.{EnvelopeCodec, list_pending, enqueue, write_all}
use codex_research_skill.CaptureQueue.File.Lines.{IsLine, enqueue-list_pending}

abbrev has_key : Text → List Text → Bool
has_key key keys = any (λ k. same k key) keys

abbrev found : Bool → Text → List Text → Result Text Text × List Text
found true key keys = (ok key, keys)
found false key keys = (ok key, key ∷ keys)

abbrev with_key : Option Text → List Text → Result Text Text × List Text
with_key none keys = (ok (codes "new"), keys)
with_key (some key) keys = found (has_key key keys) key keys

abbrev key_backend : Backend
key_backend = record {
  State = List Text;
  create = λ c keys. with_key (key_of c) keys;
  set_question_status = λ id status keys. (ok tt, keys);
  deposit = none;
}

abbrev author : Authorship
author = record {
  visibility = codes "private";
  author_type = codes "agent";
  model_name = none;
  model_version = none;
}

abbrev waiting_capture : QueuedCaptureBundle
waiting_capture = record {
  prompt = codes "p";
  normalized_topic = codes "t";
  run = record {
    question = codes "q";
    notes = none;
    freshness_ttl_days = codes "30";
    authorship = author;
  };
  annotations =
      record {
        temp_id = codes "a";
        source = record {
          locator = codes "l";
          namespace_kind = [];
          namespace_id = [];
          dedupe_key = none;
          other_fields = [];
        };
        subject = codes "s";
        note = codes "n";
        selector = record { exact = none; other_fields = [] };
        quote_text = none;
        confidence = codes "0.6";
        authorship = author;
        parent_annotation_temp_id = none;
        tags = [];
      }
      ∷ [];
  findings =
      record {
        temp_id = codes "f";
        title = codes "t";
        subject = codes "s";
        claim = codes "c";
        annotation_temp_ids = codes "a" ∷ [];
        authorship = author;
        confidence = none;
      }
      ∷ [];
  report = record {
    question = codes "q";
    subject = codes "s";
    summary_md = codes "m";
    finding_temp_ids = codes "f" ∷ [];
    authorship = author;
  };
}

abbrev waiting : Envelope
waiting = record {
  queue_id = codes "queue_1";
  created_at = codes "now";
  body = capture waiting_capture;
  backend_url = none;
  backend_name = none;
  namespace_kind = codes "user";
  namespace_id = codes "local";
  retry_count = 0;
  last_error = none;
  last_attempted_at = none;
}

abbrev here_status : BackendStatus
here_status = record {
  url = none;
  name = codes "b";
  namespace_kind = codes "user";
  namespace_id = codes "local";
}

abbrev one_codec : EnvelopeCodec
one_codec = record { encode = λ b. 123 ∷ (b.queue_id ++ 125 ∷ []); decode = λ line. some waiting }

waiting-IsLine : IsLine one_codec waiting
unfolding is_line_break
waiting-IsLine = record {
  inner = waiting.queue_id;
  braces = refl;
  no_break = (refl, (refl, (refl, (refl, (refl, (refl, (refl, (refl, (refl, tt)))))))));
  round_trip = refl;
}

enqueue-list_pending_example :
    list_pending one_codec (enqueue one_codec waiting (some (write_all one_codec (waiting ∷ []))))
    ≡ ok (waiting ∷ waiting ∷ [])
enqueue-list_pending_example =
    enqueue-list_pending one_codec (waiting ∷ []) waiting (waiting-IsLine, (waiting-IsLine, tt))
