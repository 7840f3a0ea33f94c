-- ===== src/Ingestion/Blobs/Media.antt =====
-- A media type in lower case is a media type, and is its own lower case.
use codex_research_skill.Base.{
  ℕ, ◌+◌, ◌≡◌, refl, subst, true, ◌&&◌, Option, none, some, [], ◌∷◌, length, all, leb, ◌==◌, arith,
  inl, inr, Bool-cases, and-true, true-and, if◌then◌else◌, ok, err, err_not_ok, ok-injective,
}
use codex_research_skill.Text.{Text}
use codex_research_skill.Ingestion.Blobs.{
  is_alphanumeric, is_media_code, is_media_name, is_media_type, in_left, cut_slash, both_names,
  lower_ascii, validate_media_type, validation,
}

abbrev lower : ℕ → ℕ
lower c = if leb 65 c && leb c 90 then c + 32 else c

lower-alphanumeric : (c : ℕ) → is_alphanumeric c ≡ true → is_alphanumeric (lower c) ≡ true
lower-alphanumeric c h = ground (arith, h)

lower-media_code : (c : ℕ) → is_media_code c ≡ true → is_media_code (lower c) ≡ true
lower-media_code c h = ground (arith, h)

lower-lower : (c : ℕ) → lower (lower c) ≡ lower c
lower-lower c = ground arith

lower-slash : (c : ℕ) → (lower c == 47) ≡ (c == 47)
lower-slash c = ground arith

lower_twice : (s : Text) → lower_ascii (lower_ascii s) ≡ lower_ascii s
lower_twice [] = refl
lower_twice (c ∷ s) = cc (lower-lower c, lower_twice s)

length-lower_ascii : (s : Text) → length (lower_ascii s) ≡ length s
length-lower_ascii [] = refl
length-lower_ascii (c ∷ s) = omega (arith, length-lower_ascii s)

all-lower_ascii : (s : Text) → all is_media_code s ≡ true → all is_media_code (lower_ascii s) ≡ true
all-lower_ascii [] h = refl
all-lower_ascii (c ∷ s) h =
    let (first, rest) = and-true (is_media_code c) (all is_media_code s) h in
    true-and (lower-media_code c first) (all-lower_ascii s rest)

is_media_name-lower_ascii :
    (s : Text) → is_media_name s ≡ true → is_media_name (lower_ascii s) ≡ true
unfolding is_media_name
is_media_name-lower_ascii [] h = h
is_media_name-lower_ascii (c ∷ s) h =
    let (rest, fits) = and-true (is_alphanumeric c && all is_media_code s) (leb (length s) 126) h in
    let (first, codes) = and-true (is_alphanumeric c) (all is_media_code s) rest in
    true-and (true-and (lower-alphanumeric c first) (all-lower_ascii s codes))
      (rw (length-lower_ascii s) fits)

abbrev lower_both : Option (Text × Text) → Option (Text × Text)
lower_both none = none
lower_both (some (left, right)) = some (lower_ascii left, lower_ascii right)

lower_both-in_left :
    (c : ℕ) (o : Option (Text × Text)) → in_left (lower c) (lower_both o) ≡ lower_both (in_left c o)
lower_both-in_left c none = refl
lower_both-in_left c (some (left, right)) = refl

cut_slash-lower_ascii : (s : Text) → cut_slash (lower_ascii s) ≡ lower_both (cut_slash s)
unfolding cut_slash
cut_slash-lower_ascii [] = refl
cut_slash-lower_ascii (c ∷ s) = elim (Bool-cases (c == 47)) [
  | inl e ↦ rw (lower-slash c, e) refl
  | inr e ↦
      rw (lower-slash c, e) (rw (cut_slash-lower_ascii s) (lower_both-in_left c (cut_slash s)))
]

both_names-lower_both :
    (o : Option (Text × Text)) → both_names o ≡ true → both_names (lower_both o) ≡ true
both_names-lower_both none h = h
both_names-lower_both (some (left, right)) h =
    let (one, two) = and-true (is_media_name left) (is_media_name right) h in
    true-and (is_media_name-lower_ascii left one) (is_media_name-lower_ascii right two)

is_media_type-lower_ascii :
    (s : Text) → is_media_type s ≡ true → is_media_type (lower_ascii s) ≡ true
unfolding is_media_type
is_media_type-lower_ascii s h = rw (cut_slash-lower_ascii s) (both_names-lower_both (cut_slash s) h)

pub validate_media_type_twice :
    (media_type normal : Option Text)
    → validate_media_type media_type ≡ ok normal
    → validate_media_type normal ≡ ok normal
unfolding validate_media_type
validate_media_type_twice none normal h = ground (arith, h)
validate_media_type_twice (some value) normal h = elim (Bool-cases (is_media_type value)) [
  | inl e ↦
      let lowered : some (lower_ascii value) ≡ normal = ok-injective (
        subst (λ b. (if b then ok (some (lower_ascii value)) else err validation) ≡ ok normal) e
          h) in
      rw (← lowered) (rw (is_media_type-lower_ascii value e) (rw (lower_twice value) refl))
  | inr e ↦
      elim (err_not_ok (
        subst (λ b. (if b then ok (some (lower_ascii value)) else err validation) ≡ ok normal) e
          h)) [ ]
]
