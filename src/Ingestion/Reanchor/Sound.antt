-- ===== src/Ingestion/Reanchor/Sound.antt =====
-- What a quote that is found again shows.
use native.Mathlib.Nat.{zero-add, suc-add}
use codex_research_skill.Base.{
  length-drop, subst, guard, ◌⊎◌, ℕ, zero, suc, ◌+◌, ◌-◌, ◌≤◌, ◌≡◌, refl, ap, sym, ◌∙◌, true,
  Option, none, some, [], ◌∷◌, length, take, drop, leb, ok, >>=-eq-ok, arith,
}
use codex_research_skill.Text.{Text, slice}
use codex_research_skill.Domain.Evidence.{match_loop, unique_text_match, unresolved}
use codex_research_skill.Domain.Evidence.Matching.{located}
use codex_research_skill.Domain.Evidence.Soundness.{Shown, unique_text_match_sound}
use codex_research_skill.Ingestion.Reanchor.{
  ReanchorResult, line_feeds, line_at, last_offset, reanchored, reanchor_text,
}

take-nil : (n : ℕ) → take {A = ℕ} n [] ≡ []
take-nil zero = refl
take-nil (suc n) = refl

line_feeds-take :
    (n m : ℕ) (text : Text)
    → line_feeds (take (n + m) text) ≡ line_feeds (take n text) + line_feeds (take m (drop n text))
unfolding line_feeds
line_feeds-take zero m text = rw (zero-add m) (omega arith)
line_feeds-take (suc n) m [] = rw (suc-add, take-nil m) (omega arith)
line_feeds-take (suc n) m (c ∷ text) = rw suc-add (ground (arith, line_feeds-take n m text))

take-take : (n m : ℕ) (text : Text) → n ≤ m → take n (take m text) ≡ take n text
take-take zero m text h = refl
take-take (suc n) zero text h = ground (arith, h)
take-take (suc n) (suc m) [] h = refl
take-take (suc n) (suc m) (c ∷ text) h = ap (λ t. c ∷ t) (take-take n m text (omega (arith, h)))

length-take : (n : ℕ) (text : Text) → n ≤ length text → length (take n text) ≡ n
length-take zero text h = omega arith
length-take (suc n) [] h = omega (arith, h)
length-take (suc n) (c ∷ text) h = omega (arith, length-take n text (omega (arith, h)))

-- The offsets of a part that is not empty are as far apart as it is long.
length-slice :
    (text exact : Text) (start end : ℕ)
    → end ≤ length text
    → 1 ≤ length exact
    → slice text start end ≡ exact
    → (end - start ≡ length exact) × (end ≡ start + length exact)
length-slice text exact start end h₁ h₂ h =
    let size : length (slice text start end) ≡ end - start =
      length-take (end - start) (drop start text) (omega (arith, length-drop start text, h₁)) in
    let same : length (slice text start end) ≡ length exact = ap length h in
    (omega (arith, size, same), omega (arith, size, same, h₂))

-- The lines of the last code point of a part and of its first one are as far apart as the part says.
end_line_lem :
    (text exact : Text) (start end : ℕ)
    → end ≤ length text
    → 1 ≤ length exact
    → slice text start end ≡ exact
    → line_at text (last_offset start end)
      ≡ line_at text start + line_feeds (take (length exact - 1) exact)
unfolding line_at last_offset
end_line_lem text exact start end h₁ h₂ h =
    let (size, at_end) = length-slice text exact start end h₁ h₂ h in
    let n : ℕ = length exact - 1 in
    let last : start + n ≡ end - 1 = omega (arith, at_end, h₂) in
    let split = line_feeds-take start n text in
    let part : take n (drop start text) ≡ take n exact =
      sym (take-take n (end - start) (drop start text) (omega (arith, size))) ∙ ap (take n) h in
    ground (arith, ap (λ k. line_feeds (take k text)) last, split, ap line_feeds part, last, h₂)

-- What is shown of a place holds of the result that is made of it.
abbrev pub Reanchors : Text → Text → Option Text → Option Text → ReanchorResult → Type 0
Reanchors text exact prefix suffix r =
    Shown text exact 0 (length text) prefix suffix r.start r.end
    × ((i : ℕ)
        → i + length exact ≤ length text
        → located text exact (length text) prefix suffix i ≡ true
        → i ≡ r.start)
    × (r.start_line ≡ line_feeds (take r.start text) + 1)
    × (r.end_line ≡ r.start_line + line_feeds (take (length exact - 1) exact))

only : {start end : ℕ} {P : Type 0} → (◌≡◌ {A = Option (ℕ × ℕ)} none (some (start, end))) ⊎ P → P
only h = ground (arith, h)

reanchored-Reanchors :
    (text exact : Text) (prefix suffix : Option Text) (start end : ℕ)
    → 1 ≤ length exact
    → unique_text_match text exact 0 (length text) prefix suffix none ≡ ok (start, end)
    → Reanchors text exact prefix suffix (reanchored text (start, end))
unfolding reanchored line_at
reanchored-Reanchors text exact prefix suffix start end size h =
    let (shown, rest) =
      unique_text_match_sound text exact 0 (length text) prefix suffix none start end h in
    let (_, fits, is, _) = shown in
    (shown, (λ i. only rest i (omega arith)), refl, end_line_lem text exact start end fits size is)

-- A quote that is found again is there with its context, at no other place of the text, and the lines
-- given are the one in which it begins and the one of its last code point.
pub reanchor_text-Reanchors :
    (text exact : Text) (prefix suffix : Option Text) (r : ReanchorResult)
    → reanchor_text text exact prefix suffix ≡ ok r
    → Reanchors text exact prefix suffix r
unfolding reanchor_text unique_text_match
reanchor_text-Reanchors text exact prefix suffix r h =
    let (_, sized, h₁) = >>=-eq-ok (guard (leb 1 (length exact)) unresolved) _ h in
    let ((start, end), at, h₂) =
      >>=-eq-ok (match_loop text exact (length text) prefix suffix (length text + 1) 0 none) _ h₁ in
    let made : reanchored text (start, end) ≡ r = ground (arith, h₂) in
    subst (Reanchors text exact prefix suffix) made
      (reanchored-Reanchors text exact prefix suffix start end (ground (arith, sized)) at)
