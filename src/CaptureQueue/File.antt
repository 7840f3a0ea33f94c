-- ===== src/CaptureQueue/File.antt =====
-- capture_queue.py: the file of the queue, one bundle to a line.
pub mod Lines
use codex_research_skill.Base.{
  Option, none, some, List, [], ◌∷◌, ◌++◌, get_or, Result, ok, err, ◌>>=◌,
}
use codex_research_skill.Text.{Text, split_lines}
use codex_research_skill.Text.Spaces.{strip}
use codex_research_skill.CaptureQueue.Bundles.{Envelope, BackendStatus}
use codex_research_skill.CaptureQueue.Replay.{Backend}
use codex_research_skill.CaptureQueue.Flush.{Flushed, QueueFlushResult, flush_loop}

-- `model_dump_json`, and `json.loads` with `model_validate`, which may raise
pub record EnvelopeCodec : Type 0 where
  pub encode : Envelope → Text
  pub decode : Text → Option Envelope

-- The file, where it exists.
abbrev pub QueueFile : Type 0
QueueFile = Option Text

pub data ReadError : Type 0 where
  invalid_line : Text → ReadError

module _ (codec : EnvelopeCodec) where
  -- the line of a bundle
  unfoldable pub line_of : Envelope → Text
  line_of bundle = codec.encode bundle ++ 10 ∷ []

  -- `enqueue`
  unfoldable pub enqueue : Envelope → QueueFile → QueueFile
  unfolding line_of
  enqueue bundle file = some (get_or file [] ++ line_of bundle)

  abbrev pub or_invalid : Text → Option Envelope → Result ReadError Envelope
  or_invalid line none = err (invalid_line line)
  or_invalid line (some bundle) = ok bundle

  -- one round of the loop, before what the other lines give; blank lines are passed over
  unfoldable pub take_line :
      Text → Result ReadError (List Envelope) → Result ReadError (List Envelope)
  take_line [] rest = rest
  take_line (c ∷ line) rest = or_invalid (c ∷ line) (codec.decode (c ∷ line)) >>= λ bundle.
      rest >>= λ bundles. ok (bundle ∷ bundles)

  -- The loop over the lines. They end with their line breaks here, which `strip` takes off as well.
  unfoldable pub read_lines : List Text → Result ReadError (List Envelope)
  unfolding strip take_line
  read_lines [] = ok []
  read_lines (raw_line ∷ lines) = take_line (strip raw_line) (read_lines lines)

  -- `_list_pending_unlocked`
  unfoldable pub list_pending : QueueFile → Result ReadError (List Envelope)
  unfolding read_lines split_lines
  list_pending none = ok []
  list_pending (some content) = read_lines (split_lines content)

  -- `_write_all_unlocked`
  unfoldable pub write_all : List Envelope → Text
  unfolding line_of
  write_all [] = []
  write_all (bundle ∷ bundles) = line_of bundle ++ write_all bundles

  abbrev pub flushed_file : (bk : Backend) → Flushed bk → QueueFlushResult × QueueFile × bk.State
  unfolding write_all
  flushed_file bk done = (done.result, some (write_all done.remaining), done.backend)

  -- `flush`: the result, the file that replaces the old one, and the backend
  unfoldable pub flush :
      (bk : Backend)
      → Text
      → BackendStatus
      → QueueFile
      → bk.State
      → Result ReadError (QueueFlushResult × QueueFile × bk.State)
  unfolding list_pending flush_loop write_all
  flush bk now status file state =
      list_pending file >>= λ pending. ok (flushed_file bk (flush_loop bk now status pending state))
