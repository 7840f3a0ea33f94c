-- ===== src/CaptureQueue/File/Lines.antt =====
-- What is written to the file is read from it.
use mathlib.Core.List.{append-nil, append_assoc}
use codex_research_skill.Base.{
  ℕ, ◌≡◌, refl, sym, ap, ◌∙◌, false, if◌then◌else◌, some, List, [], ◌∷◌, ◌++◌, All, ok, ◌>>=◌,
  arith,
}
use codex_research_skill.Text.{Text, is_line_break, split_from, split_lines}
use codex_research_skill.Text.Spaces.{is_space, strip, strip_left, strip_right}
use codex_research_skill.CaptureQueue.Bundles.{Envelope}
use codex_research_skill.CaptureQueue.File.{
  EnvelopeCodec, line_of, read_lines, list_pending, write_all, enqueue, or_invalid, take_line,
}

abbrev NoBreak : Text → Type 0
NoBreak = All (λ c. is_line_break c ≡ false)

-- What the queue needs of the encoding of a bundle: an object in braces without a line break, which is
-- read back.
pub record IsLine (codec : EnvelopeCodec) (b : Envelope) : Type 0 where
  pub inner : Text
  pub braces : codec.encode b ≡ 123 ∷ (inner ++ 125 ∷ [])
  pub no_break : NoBreak (codec.encode b)
  pub round_trip : codec.decode (codec.encode b) ≡ some b

next_char :
    (c d : ℕ) (line text : Text) {lines : List Text}
    → is_line_break c ≡ false
    → split_from (line ++ c ∷ []) (d ∷ text) ≡ lines
    → split_from line (c ∷ d ∷ text) ≡ lines
unfolding split_from is_line_break
next_char c d line text p h = ground (arith, p, h)

split_from-line :
    (line text rest : Text)
    → NoBreak text
    → split_from line (text ++ 10 ∷ rest) ≡ (line ++ (text ++ 10 ∷ [])) ∷ split_from [] rest
unfolding split_from is_line_break
split_from-line line [] [] h = refl
split_from-line line [] (d ∷ rest) h = refl
split_from-line line (c ∷ []) rest (p, h) =
    next_char c 10 line rest p (split_from-line (line ++ c ∷ []) [] rest tt)
    ∙ ap (λ t. t ∷ split_from [] rest) (append_assoc line (c ∷ []) (10 ∷ []))
split_from-line line (c ∷ d ∷ text) rest (p, h) =
    next_char c d line (text ++ 10 ∷ rest) p (split_from-line (line ++ c ∷ []) (d ∷ text) rest h)
    ∙ ap (λ t. t ∷ split_from [] rest) (append_assoc line (c ∷ []) (d ∷ (text ++ 10 ∷ [])))

keep_char : ℕ → Text → Text
keep_char c text = elim text [ [] ↦ if is_space c then [] else c ∷ [] | d ∷ rest ↦ c ∷ d ∷ rest ]

keep_char-cons : (c : ℕ) (text : Text) → keep_char c (text ++ 125 ∷ []) ≡ c ∷ (text ++ 125 ∷ [])
unfolding keep_char
keep_char-cons c [] = refl
keep_char-cons c (d ∷ text) = refl

strip_right-end : (text : Text) → strip_right (text ++ 125 ∷ 10 ∷ []) ≡ text ++ 125 ∷ []
unfolding strip_right is_space keep_char
strip_right-end [] = refl
strip_right-end (c ∷ text) = ap (keep_char c) (strip_right-end text) ∙ keep_char-cons c text

module _ (codec : EnvelopeCodec) where
  strip-line_of : (b : Envelope) → IsLine codec b → strip (line_of codec b) ≡ codec.encode b
  unfolding strip strip_left is_space line_of
  strip-line_of b h =
      ap (λ t. strip (t ++ 10 ∷ [])) h.braces
      ∙ ap (λ t. strip_right (123 ∷ t)) (append_assoc (h.inner) (125 ∷ []) (10 ∷ []))
      ∙ strip_right-end (123 ∷ h.inner)
      ∙ sym h.braces

  take_line-encode :
      (b : Envelope) (bs : List Envelope)
      → IsLine codec b
      → take_line codec (codec.encode b) (ok bs) ≡ ok (b ∷ bs)
  unfolding take_line
  take_line-encode b bs h =
      ap (λ t. take_line codec t (ok bs)) h.braces
      ∙ ap (λ t. or_invalid codec t (codec.decode t) >>= λ bundle. ok (bundle ∷ bs)) (sym h.braces)
      ∙ ap (λ o. or_invalid codec (codec.encode b) o >>= λ bundle. ok (bundle ∷ bs)) h.round_trip

  line-write_all :
      (b : Envelope) (bs : List Envelope)
      → IsLine codec b
      → split_from [] (line_of codec b ++ write_all codec bs)
        ≡ line_of codec b ∷ split_from [] (write_all codec bs)
  unfolding line_of
  line-write_all b bs h =
      ap (split_from []) (append_assoc (codec.encode b) (10 ∷ []) (write_all codec bs))
      ∙ split_from-line [] (codec.encode b) (write_all codec bs) h.no_break

  read_lines-write_all :
      (bs : List Envelope)
      → All (IsLine codec) bs
      → read_lines codec (split_from [] (write_all codec bs)) ≡ ok bs
  unfolding write_all read_lines split_from
  read_lines-write_all [] hs = refl
  read_lines-write_all (b ∷ bs) (h, hs) =
      let lines = split_from [] (write_all codec bs) in
      ap (read_lines codec) (line-write_all b bs h)
      ∙ ap (λ t. take_line codec t (read_lines codec lines)) (strip-line_of b h)
      ∙ ap (take_line codec (codec.encode b)) (read_lines-write_all bs hs)
      ∙ take_line-encode b bs h

  write_all-append :
      (bs : List Envelope) (b : Envelope)
      → write_all codec bs ++ line_of codec b ≡ write_all codec (bs ++ b ∷ [])
  unfolding write_all
  write_all-append [] b = sym (append-nil _)
  write_all-append (x ∷ bs) b =
      append_assoc (line_of codec x) _ _ ∙ ap (λ t. line_of codec x ++ t) (write_all-append bs b)

  -- What is put into a queue is read from it after what was there, for bundles that are encoded on a
  -- line each.
  pub enqueue-list_pending :
      (bs : List Envelope) (b : Envelope)
      → All (IsLine codec) (bs ++ b ∷ [])
      → list_pending codec (enqueue codec b (some (write_all codec bs))) ≡ ok (bs ++ b ∷ [])
  unfolding list_pending enqueue split_lines
  enqueue-list_pending bs b hs =
      ap (λ t. read_lines codec (split_from [] t)) (write_all-append bs b)
      ∙ read_lines-write_all (bs ++ b ∷ []) hs
