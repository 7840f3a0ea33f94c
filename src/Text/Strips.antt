-- ===== src/Text/Strips.antt =====
-- A text that is stripped is no longer than it was, and stays as it is when it is stripped again.
use codex_research_skill.Base.{
  ◌≤◌, ◌≡◌, refl, ◌⊎◌, inl, inr, ℕ, false, [], ◌∷◌, length, arith, Bool-cases,
}
use codex_research_skill.Text.{Text}
use codex_research_skill.Text.Spaces.{is_space, strip_left, strip_right, strip}

length-strip_left : (s : Text) → length (strip_left s) ≤ length s
unfolding strip_left
length-strip_left [] = omega arith
length-strip_left (c ∷ s) = elim (Bool-cases (is_space c)) [
  | inl e ↦ rw e (omega (arith, length-strip_left s))
  | inr e ↦ rw e (omega arith)
]

length-strip_right : (s : Text) → length (strip_right s) ≤ length s
unfolding strip_right
length-strip_right [] = omega arith
length-strip_right (c ∷ s) = ground (arith, length-strip_right s)

pub length-strip : (s : Text) → length (strip s) ≤ length s
unfolding strip
length-strip s = omega (arith, length-strip_right (strip_left s), length-strip_left s)

strip_right_twice : (s : Text) → strip_right (strip_right s) ≡ strip_right s
unfolding strip_right
strip_right_twice [] = refl
strip_right_twice (c ∷ s) = ground (arith, strip_right_twice s)

strip_left-starts :
    (s : Text)
    → (strip_left s ≡ []) ⊎ ((c : ℕ) × (t : Text) × (strip_left s ≡ c ∷ t) × (is_space c ≡ false))
unfolding strip_left
strip_left-starts [] = inl refl
strip_left-starts (c ∷ s) = elim (Bool-cases (is_space c)) [
  | inl e ↦ rw e (strip_left-starts s)
  | inr e ↦ inr (c, s, rw e refl, e)
]

strip_right-starts :
    (c : ℕ) (s : Text) → is_space c ≡ false → strip_right (c ∷ s) ≡ c ∷ strip_right s
unfolding strip_right
strip_right-starts c s e = ground (arith, e)

strip_left-starts_same : (c : ℕ) (s : Text) → is_space c ≡ false → strip_left (c ∷ s) ≡ c ∷ s
unfolding strip_left
strip_left-starts_same c s e = rw e refl

pub strip_twice : (s : Text) → strip (strip s) ≡ strip s
unfolding strip
strip_twice s = elim (strip_left-starts s) [
  | inl e ↦ rw e refl
  | inr (c, t, e, plain) ↦
      rw
        (
          e,
          strip_right-starts c t plain,
          strip_left-starts_same c (strip_right t) plain,
          strip_right-starts c (strip_right t) plain,
          strip_right_twice t,
        )
        refl
]
