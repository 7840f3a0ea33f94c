-- ===== src/Domain/Evidence/Matching.antt =====
-- `_unique_text_match` of domain/evidence.py against the list of all places where evidence stands.
use codex_research_skill.Base.{
  ℕ, zero, suc, ◌+◌, ◌-◌, ◌≤◌, ◌≡◌, ◌∙◌, refl, Bool, true, false, ◌&&◌, Option, none, some, List,
  [], ◌∷◌, length, arith, Bool-cases, inl, inr, Result, ok, err, Option-cases, leb, leb→le,
}
use codex_research_skill.Text.{Text, stands_at, find_text}
use codex_research_skill.Text.Find.{hits, hits-find_none, hits-find_some}
use codex_research_skill.Domain.Evidence.{
  EvidenceError, unresolved, ambiguous, context_matches, finish, second, match_loop,
  unique_text_match,
}

-- What the search must return, given every place: the only one, or an error.
abbrev pub the_only : ℕ → List ℕ → Result EvidenceError (ℕ × ℕ)
the_only size [] = err unresolved
the_only size (start ∷ []) = ok (start, start + size)
the_only size (_ ∷ _ ∷ _) = err ambiguous

abbrev before : Option ℕ → List ℕ → List ℕ
before none starts = starts
before (some start) starts = start ∷ starts

module _ (text exact : Text) (upper : ℕ) (prefix suffix : Option Text) where
  -- Evidence stands at `start` with its context.
  abbrev pub located : ℕ → Bool
  located start =
      stands_at text exact start && context_matches text start (start + length exact) prefix suffix

  -- Every place from `lower` on that ends at `upper` or before.
  abbrev pub places : ℕ → List ℕ
  places lower = hits located (upper + 1 - (lower + length exact)) lower

  abbrev add_if : Bool → ℕ → List ℕ → List ℕ
  add_if true start starts = start ∷ starts
  add_if false start starts = starts

  abbrev context_at : ℕ → Bool
  context_at start = context_matches text start (start + length exact) prefix suffix

  -- What one call of `find` tells of the places.
  places-find :
      (position start : ℕ)
      → position + length exact ≤ upper
      → find_text text exact position upper ≡ some start
      → (position ≤ start)
        × (places position ≡ add_if (context_at start) start (places (start + 1)))
  unfolding find_text
  places-find position start room h =
      let (k, at, span, above, same) = hits-find_some text exact context_at _ position start h in
      let e : k ≡ upper + 1 - (start + 1 + length exact) = omega arith in
      (above, same ∙ rw (← e) (unfold hits in ground (arith, at)))

  places-find_none :
      (position : ℕ) → find_text text exact position upper ≡ none → places position ≡ []
  unfolding find_text
  places-find_none position h = hits-find_none text exact context_at _ position h

  places-past : (position : ℕ) → leb (position + length exact) upper ≡ false → places position ≡ []
  places-past position h =
      let e : upper + 1 - (position + length exact) ≡ 0 = ground arith in rw e (unfold hits in refl)

  finish-the_only :
      (found : Option ℕ) → finish (length exact) found ≡ the_only (length exact) (before found [])
  finish-the_only none = refl
  finish-the_only (some start) = refl

  second-the_only :
      (found : Option ℕ) (start : ℕ) (starts : List ℕ)
      → second found (the_only (length exact) (start ∷ starts))
        ≡ the_only (length exact) (before found (start ∷ starts))
  second-the_only none start starts = refl
  second-the_only (some _) start starts = refl

  match_loop-places :
      (fuel position : ℕ) (found : Option ℕ)
      → upper + 1 - (position + length exact) ≤ fuel
      → match_loop text exact upper prefix suffix fuel position found
        ≡ the_only (length exact) (before found (places position))
  unfolding match_loop
  match_loop-places zero position found h =
      rw (places-past position (ground arith)) (finish-the_only found)
  match_loop-places (suc fuel) position found h =
      elim (Bool-cases (leb (position + length exact) upper)) [
        | inr past ↦ ground (arith, past, places-past position past, finish-the_only found)
        | inl room ↦ elim (Option-cases (find_text text exact position upper)) [
          | inl missing ↦
              ground
                (arith, room, missing, places-find_none position missing, finish-the_only found)
          | inr (start, at) ↦
              let (above, step) = places-find position start (leb→le _ _ room) at in
              let less : upper + 1 - (start + 1 + length exact) ≤ fuel = ground arith in
              elim (Bool-cases (context_at start)) [
                | inl fits ↦ ground (
                  arith,
                  room,
                  at,
                  fits,
                  step,
                  match_loop-places fuel (start + 1) (some start) less,
                  second-the_only found start (places (start + 1)),
                )
                | inr other ↦
                    ground
                      (arith, room, at, other, step, match_loop-places fuel (start + 1) found less)
              ]
        ]
      ]

  -- Where no offsets are recorded, the search returns the only place at which the evidence stands with
  -- its context, and otherwise the error that says whether there was none or more than one.
  pub unique_text_match-places :
      (lower : ℕ)
      → unique_text_match text exact lower upper prefix suffix none
        ≡ the_only (length exact) (places lower)
  unfolding unique_text_match
  unique_text_match-places lower = match_loop-places (upper + 1) lower none (omega arith)
