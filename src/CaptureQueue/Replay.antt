-- ===== src/CaptureQueue/Replay.antt =====
-- capture_queue.py: the replay of a waiting capture against a backend.
use codex_research_skill.Base.{
  Option, none, some, List, [], ◌∷◌, ◌++◌, get_or, if◌then◌else◌, Result, ok, err,
}
use codex_research_skill.Text.{Text, codes, same}
use codex_research_skill.Text.Spaces.{strip}
use codex_research_skill.CaptureQueue.Bundles.{
  SourceCreate, QueuedAnnotation, QueuedFinding, QueuedCaptureBundle, Deposit, capture, v2,
  Envelope, Create, create_question, create_session, create_source, create_excerpt, create_claim,
  create_report,
}

-- The `backend` and the `deposit_service` that `flush` is given, of which nothing is assumed. Their
-- exceptions are their messages, and what they did before they raise stays done.
pub record Backend : Type 1 where
  pub State : Type 0
  pub create : Create → State → Result Text Text × State
  pub set_question_status : Text → Text → State → Result Text (Unit {0}) × State
  pub deposit : Option (Deposit → State → Result Text (Option Text) × State)

-- `a or b` of strings, where an absent one is false
abbrev or_text : Text → Text → Text
or_text [] b = b
or_text (c ∷ a) b = c ∷ a

abbrev given : Option Text → Text
given a = get_or a []

-- `"".join((a, ":", b))`, as the f-strings write it
abbrev colon : Text → Text → Text
colon a b = a ++ (58 ∷ b)

abbrev lookup : List (Text × Text) → Text → Option Text
lookup [] key = none
lookup ((k, value) ∷ entries) key =
    let rest = lookup entries key in
    elim rest [ some v ↦ some v | none ↦ if same k key then some value else none ]

-- `[mapping[temp_id] for temp_id in temp_ids]`, with its `KeyError`
unfoldable pub lookup_all : List (Text × Text) → List Text → Result Text (List Text)
lookup_all entries [] = ok []
lookup_all entries (key ∷ keys) =
    let rest = lookup_all entries keys in
    elim (lookup entries key) [
      | none ↦ err (39 ∷ key ++ 39 ∷ [])
      | some value ↦ elim rest [ err e ↦ err e | ok values ↦ ok (value ∷ values) ]
    ]

module _ (bk : Backend) where
  abbrev pub Action : Type 0 → Type 0
  Action A = bk.State → Result Text A × bk.State

  unfoldable pub after :
      {A B : Type 0} → Result Text A × bk.State → (A → Action B) → Result Text B × bk.State
  after (err e, s) f = (err e, s)
  after (ok a, s) f = f a s

  infixl 5 ◌>>=◌
  unfoldable pub ◌>>=◌ : {A B : Type 0} → Action A → (A → Action B) → Action B
  unfolding after
  ◌>>=◌ m f s = after (m s) f

  unfoldable pub pure : {A : Type 0} → Result Text A → Action A
  pure outcome s = (outcome, s)

  -- the prompt that `_ensure_question` and `_ensure_session` take
  abbrev prompt_of : QueuedCaptureBundle → Text
  prompt_of b = or_text (strip b.prompt) (or_text (strip b.report.question) b.run.question)

  -- `_ensure_question`
  unfoldable pub ensure_question : Envelope → QueuedCaptureBundle → Action Text
  unfolding strip
  ensure_question envelope b = bk.create (
      create_question record {
        prompt = prompt_of b;
        focal_label =
            or_text
              (strip (or_text b.report.subject (or_text b.normalized_topic (codes "research"))))
              (codes "research");
        visibility = b.run.authorship.visibility;
        author_type = b.run.authorship.author_type;
        namespace_kind = envelope.namespace_kind;
        namespace_id = envelope.namespace_id;
        dedupe_key = colon envelope.queue_id (codes "question");
      })

  -- `_ensure_session`
  unfoldable pub ensure_session : Envelope → QueuedCaptureBundle → Text → Action Text
  unfolding strip
  ensure_session envelope b question_id = bk.create (
      create_session record {
        question_id = question_id;
        prompt = prompt_of b;
        notes =
            strip
              (strip (given b.run.notes) ++ (10 ∷ codes "capture_queue_id=" ++ envelope.queue_id));
        mode = codes "synthesis";
        ttl_days = b.run.freshness_ttl_days;
        source_signals = colon (codes "capture-queue") envelope.queue_id ∷ [];
        authorship = b.run.authorship;
        namespace_kind = envelope.namespace_kind;
        namespace_id = envelope.namespace_id;
        dedupe_key = colon envelope.queue_id (codes "session");
      })

  -- the source that `_ensure_excerpt` creates
  abbrev source_of : Envelope → SourceCreate → SourceCreate
  source_of envelope source = record {
    locator = source.locator;
    namespace_kind = envelope.namespace_kind;
    namespace_id = envelope.namespace_id;
    dedupe_key = some (
        colon (codes "source")
          (colon envelope.namespace_kind (colon envelope.namespace_id source.locator)));
    other_fields = source.other_fields;
  }

  abbrev tags_of : QueuedAnnotation → List Text
  tags_of a = elim (given a.parent_annotation_temp_id) [
    | [] ↦ a.tags
    | c ∷ parent ↦ a.tags ++ colon (codes "parent_annotation_temp_id") (c ∷ parent) ∷ []
  ]

  -- `_ensure_excerpt`
  unfoldable pub ensure_excerpt : Envelope → Text → Text → QueuedAnnotation → Action Text
  unfolding ◌>>=◌
  ensure_excerpt envelope question_id session_id a =
      bk.create (create_source (source_of envelope a.source)) >>= λ source_id. bk.create (
        create_excerpt record {
          source_id = source_id;
          question_id = question_id;
          session_id = session_id;
          focal_label = a.subject;
          note = a.note;
          selector = a.selector;
          quote_text = or_text (given a.quote_text) (or_text (given a.selector.exact) a.note);
          confidence = a.confidence;
          tags = tags_of a;
          authorship = a.authorship;
          namespace_kind = envelope.namespace_kind;
          namespace_id = envelope.namespace_id;
          dedupe_key = colon envelope.queue_id (colon (codes "excerpt") a.temp_id);
        })

  -- `_ensure_claim`
  unfoldable pub ensure_claim : Envelope → Text → Text → QueuedFinding → List Text → Action Text
  ensure_claim envelope question_id session_id finding excerpt_ids = bk.create (
      create_claim record {
        question_id = question_id;
        session_id = session_id;
        title = finding.title;
        focal_label = finding.subject;
        statement = finding.claim;
        excerpt_ids = excerpt_ids;
        authorship = finding.authorship;
        confidence = get_or finding.confidence (codes "0.7");
        namespace_kind = envelope.namespace_kind;
        namespace_id = envelope.namespace_id;
        dedupe_key = colon envelope.queue_id (colon (codes "claim") finding.temp_id);
      })

  -- `_ensure_report`
  unfoldable pub ensure_report :
      Envelope → QueuedCaptureBundle → Text → Text → List Text → Action Text
  ensure_report envelope b question_id session_id claim_ids = bk.create (
      create_report record {
        question_id = question_id;
        session_id = session_id;
        title = or_text b.report.question b.prompt;
        focal_label = b.report.subject;
        summary_md = b.report.summary_md;
        claim_ids = claim_ids;
        authorship = b.report.authorship;
        namespace_kind = envelope.namespace_kind;
        namespace_id = envelope.namespace_id;
        dedupe_key = colon envelope.queue_id (codes "report");
      })

  -- the loop over the annotations, with `annotation_map` so far
  unfoldable pub annotations_loop :
      Envelope
      → Text
      → Text
      → List (Text × Text)
      → List QueuedAnnotation
      → Action (List (Text × Text))
  unfolding ◌>>=◌ pure ensure_excerpt
  annotations_loop envelope question_id session_id done [] = pure (ok done)
  annotations_loop envelope question_id session_id done (a ∷ annotations) =
      ensure_excerpt envelope question_id session_id a >>= λ excerpt_id.
      annotations_loop envelope question_id session_id (done ++ (a.temp_id, excerpt_id) ∷ [])
        annotations

  -- the loop over the findings, with `finding_map` so far
  unfoldable pub findings_loop :
      Envelope
      → Text
      → Text
      → List (Text × Text)
      → List (Text × Text)
      → List QueuedFinding
      → Action (List (Text × Text))
  unfolding ◌>>=◌ pure ensure_claim lookup_all
  findings_loop envelope question_id session_id excerpts done [] = pure (ok done)
  findings_loop envelope question_id session_id excerpts done (finding ∷ findings) =
      pure (lookup_all excerpts finding.annotation_temp_ids) >>= λ excerpt_ids.
      ensure_claim envelope question_id session_id finding excerpt_ids >>= λ claim_id.
      findings_loop envelope question_id session_id excerpts
        (done ++ (finding.temp_id, claim_id) ∷ []) findings

  -- `_replay_bundle`: the identifier of the report
  unfoldable pub replay_bundle : Envelope → QueuedCaptureBundle → Action (Option Text)
  unfolding ◌>>=◌ pure ensure_question ensure_session annotations_loop findings_loop lookup_all
      ensure_report
  replay_bundle envelope b = ensure_question envelope b >>= λ question_id.
      ensure_session envelope b question_id >>= λ session_id.
      annotations_loop envelope question_id session_id [] b.annotations >>= λ excerpts.
      findings_loop envelope question_id session_id excerpts [] b.findings >>= λ claims.
      pure (lookup_all claims b.report.finding_temp_ids) >>= λ claim_ids.
      ensure_report envelope b question_id session_id claim_ids >>= λ report_id.
      bk.set_question_status question_id (codes "answered") >>= λ _. pure (ok (some report_id))

  -- `_replay_v2`
  unfoldable pub replay_v2 : Deposit → Action (Option Text)
  unfolding pure
  replay_v2 deposit = elim bk.deposit [
    | none ↦ pure (err (codes "v2 queue replay requires a local atomic deposit service"))
    | some service ↦ service deposit
  ]

  -- the branch of `flush` on the kind of a bundle
  unfoldable pub replay : Envelope → Action (Option Text)
  unfolding replay_bundle replay_v2
  replay envelope = elim envelope.body [
    | capture b ↦ replay_bundle envelope b
    | v2 deposit ↦ replay_v2 deposit
  ]
