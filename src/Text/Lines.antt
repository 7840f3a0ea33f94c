-- ===== src/Text/Lines.antt =====
-- The lines of a text, joined, are the text; so lines have offsets in it.
use mathlib.Core.List.{append-nil, append_assoc}
use native.Mathlib.Nat.{zero-add, suc-add}
use codex_research_skill.Base.{
  ℕ, zero, suc, ◌+◌, ◌-◌, ◌≤◌, ◌≡◌, refl, ap, subst, ◌∙◌, List, [], ◌∷◌, ◌++◌, length, take, drop,
  length-append, arith,
}
use codex_research_skill.Text.{Text, split_from, split_lines, total_length, slice}

abbrev pub joined : List Text → Text
joined [] = []
joined (line ∷ lines) = line ++ joined lines

joined-split_from : (line text : Text) → joined (split_from line text) ≡ line ++ text
unfolding split_from
joined-split_from [] [] = refl
joined-split_from (c ∷ line) [] = refl
joined-split_from [] (c ∷ []) = refl
joined-split_from (b ∷ line) (c ∷ []) = rw append-nil
joined-split_from line (c ∷ d ∷ rest) = ground (
  arith,
  append_assoc line (c ∷ []) (d ∷ rest),
  append_assoc line (c ∷ d ∷ []) rest,
  joined-split_from [] rest,
  joined-split_from [] (d ∷ rest),
  joined-split_from (line ++ c ∷ []) (d ∷ rest),
)

-- The lines of a text spell the text.
pub joined-split_lines : (text : Text) → joined (split_lines text) ≡ text
unfolding split_lines
joined-split_lines text = joined-split_from [] text

drop-append : (s t : Text) (n : ℕ) → drop (length s + n) (s ++ t) ≡ drop n t
drop-append [] t n = rw zero-add
drop-append (c ∷ s) t n = rw suc-add (drop-append s t n)

take-append : (s t : Text) (n : ℕ) → take (length s + n) (s ++ t) ≡ s ++ take n t
take-append [] t n = rw zero-add
take-append (c ∷ s) t n = rw suc-add (ap (λ r. c ∷ r) (take-append s t n))

drop-joined :
    (n : ℕ) (lines : List Text)
    → drop (total_length (take n lines)) (joined lines) ≡ joined (drop n lines)
unfolding total_length
drop-joined zero lines = refl
drop-joined (suc n) [] = refl
drop-joined (suc n) (line ∷ lines) = rw drop-append (drop-joined n lines)

take-joined :
    (n : ℕ) (lines : List Text)
    → take (total_length (take n lines)) (joined lines) ≡ joined (take n lines)
unfolding total_length
take-joined zero lines = refl
take-joined (suc n) [] = refl
take-joined (suc n) (line ∷ lines) = rw take-append (ap (λ r. line ++ r) (take-joined n lines))

take-nil : (n : ℕ) → take {A = Text} n [] ≡ []
take-nil zero = refl
take-nil (suc n) = refl

total_length-take :
    (m n : ℕ) (lines : List Text)
    → total_length (take (m + n) lines)
      ≡ total_length (take m lines) + total_length (take n (drop m lines))
unfolding total_length
total_length-take zero n lines = rw (zero-add n) (omega arith)
total_length-take (suc m) n [] = rw (suc-add, take-nil n) (omega arith)
total_length-take (suc m) n (line ∷ lines) = rw suc-add (omega (arith, total_length-take m n lines))

total_length-joined : (lines : List Text) → total_length lines ≡ length (joined lines)
unfolding total_length
total_length-joined [] = refl
total_length-joined (line ∷ lines) = rw length-append (omega (arith, total_length-joined lines))

total_length-take_le :
    (n : ℕ) (lines : List Text) → total_length (take n lines) ≤ total_length lines
unfolding total_length
total_length-take_le zero lines = omega arith
total_length-take_le (suc n) [] = omega arith
total_length-take_le (suc n) (line ∷ lines) = omega (arith, total_length-take_le n lines)

-- The lines from the `m`-th on, `n` of them, stand at the offsets that the lengths add up to.
pub slice-lines :
    (m n : ℕ) (text : Text)
    → let lines = split_lines text in
      let lower = total_length (take m lines) in
      let upper = total_length (take (m + n) lines) in
      (slice text lower upper ≡ joined (take n (drop m lines)))
      × (lower ≤ upper)
      × (upper ≤ length text)
slice-lines m n text =
    let lines = split_lines text in
    let added = total_length-take m n lines in
    let e : total_length (take (m + n) lines) - total_length (take m lines)
        ≡ total_length (take n (drop m lines)) =
      omega (arith, added) in
    let within =
      subst
        (λ t.
          take (total_length (take n (drop m lines))) (drop (total_length (take m lines)) t)
          ≡ joined (take n (drop m lines)))
        (joined-split_lines text) (rw (drop-joined m lines) (take-joined n (drop m lines))) in
    let size : total_length lines ≡ length text =
      total_length-joined lines ∙ ap length (joined-split_lines text) in
    (rw e within, omega (arith, added), omega (arith, total_length-take_le (m + n) lines, size))
