-- ===== src/Domain/Evidence/Soundness.antt =====
-- What a successful match of domain/evidence.py shows.
use codex_research_skill.Base.{
  ℕ, ◌+◌, ◌-◌, ◌≤◌, ◌<◌, ◌≡◌, ◌⊎◌, inl, inr, refl, sym, ◌∙◌, Bool, true, Option, none, some, List,
  [], ◌∷◌, length, arith, ok,
}
use codex_research_skill.Text.{Text, slice}
use codex_research_skill.Text.Find.{Has, hits-Has, Has-hits, same_iff, stands_at_iff}
use codex_research_skill.Domain.Evidence.{context_matches, unique_text_match}
use codex_research_skill.Domain.Evidence.Matching.{
  located, places, the_only, unique_text_match-places,
}

the_only-Has :
    (size : ℕ) (starts : List ℕ) (start end : ℕ)
    → the_only size starts ≡ ok (start, end)
    → (starts ≡ start ∷ []) × (end ≡ start + size)
the_only-Has size [] start end h = ground arith
the_only-Has size (s ∷ []) start end h = ground arith
the_only-Has size (s ∷ t ∷ r) start end h = ground arith

module _ (text exact : Text) (lower upper : ℕ) (prefix suffix : Option Text) (start end : ℕ) where
  -- The offsets lie in the range, and hold the evidence with its context.
  abbrev pub Shown : Type 0
  Shown =
      (lower ≤ start)
      × (end ≤ upper)
      × (slice text start end ≡ exact)
      × (context_matches text start end prefix suffix ≡ true)

  recorded-Shown :
      (s e : ℕ)
      → unique_text_match text exact lower upper prefix suffix (some (s, e)) ≡ ok (start, end)
      → Shown × (s ≡ start) × (e ≡ end)
  unfolding unique_text_match
  recorded-Shown s e h = ground (arith, same_iff (slice text start end) exact)

  abbrev located_here : ℕ → Bool
  located_here = located text exact upper prefix suffix

  abbrev count : ℕ
  count = upper + 1 - (lower + length exact)

  module _
      (found : unique_text_match text exact lower upper prefix suffix none ≡ ok (start, end)) where
    only_place :
        (places text exact upper prefix suffix lower ≡ start ∷ []) × (end ≡ start + length exact)
    only_place =
        the_only-Has (length exact) _ start end
          (sym (unique_text_match-places text exact upper prefix suffix lower) ∙ found)

    place_facts : (located_here start ≡ true) × (lower ≤ start) × (start < lower + count)
    place_facts = hits-Has located_here count lower start (rw (only_place.0) (inl refl))

    found-Shown : Shown
    found-Shown =
        let (at, above, below) = place_facts in
        let e = only_place.1 in
        (
          above,
          omega arith,
          rw e ((stands_at_iff text exact start).0 (ground arith)),
          rw e (ground arith),
        )

    -- No other place in the range holds the evidence with its context.
    found_unique :
        (i : ℕ) → lower ≤ i → i + length exact ≤ upper → located_here i ≡ true → i ≡ start
    found_unique i lo hi at =
        the_same (rw (only_place.0) at (Has-hits located_here count lower i at lo (omega arith)))
      where
        the_same : Has i (start ∷ []) → i ≡ start
        the_same h = ground arith

-- The search for a quote ends in one of two ways on success. With recorded offsets these hold the
-- quote in its context. Without them the offsets returned do, and no other place in the range does.
pub unique_text_match_sound :
    (text exact : Text) (lower upper : ℕ) (prefix suffix : Option Text) (expected : Option (ℕ × ℕ))
    (start end : ℕ)
    → unique_text_match text exact lower upper prefix suffix expected ≡ ok (start, end)
    → Shown text exact lower upper prefix suffix start end
      × ((expected ≡ some (start, end))
          ⊎ ((i : ℕ)
              → lower ≤ i
              → i + length exact ≤ upper
              → located text exact upper prefix suffix i ≡ true
              → i ≡ start))
unique_text_match_sound text exact lower upper prefix suffix none start end h = (
  found-Shown text exact lower upper prefix suffix start end h,
  inr (found_unique text exact lower upper prefix suffix start end h),
)
unique_text_match_sound text exact lower upper prefix suffix (some (s, e)) start end h =
    let (shown, at, to) = recorded-Shown text exact lower upper prefix suffix start end s e h in
    (shown, inl (ground (arith, at, to)))
