-- ===== src/Domain/Evidence/Pointers/Escapes.antt =====
-- The escapes of JSON Pointer tokens.
use codex_research_skill.Base.{ℕ, ◌≡◌, refl, false, [], ◌∷◌, ◌==◌, arith, if◌then◌else◌}
use codex_research_skill.Text.{Text}
use codex_research_skill.Domain.Evidence.Pointers.{replace_escape, unescape, has_bad_escape}

-- How a key is written as a token: `~` as `~0` and `/` as `~1`.
pub escape : Text → Text
escape [] = []
escape (c ∷ key) =
    let rest = escape key in
    if c == b'~' then b'~' ∷ b'0' ∷ rest else if c == b'/' then b'~' ∷ b'1' ∷ rest else c ∷ rest

-- the key with `~` still written as `~0`
abbrev half : Text → Text
half [] = []
half (c ∷ key) = let rest = half key in if c == b'~' then b'~' ∷ b'0' ∷ rest else c ∷ rest

-- Only a `~` begins an escape.
replace_escape-plain :
    (digit by c : ℕ) (s : Text)
    → (c == b'~') ≡ false
    → replace_escape digit by (c ∷ s) ≡ c ∷ replace_escape digit by s
unfolding replace_escape
replace_escape-plain digit by c [] h = refl
replace_escape-plain digit by c (d ∷ s) h = ground (arith, h)

first_pass : (key : Text) → replace_escape b'1' b'/' (escape key) ≡ half key
unfolding escape replace_escape
first_pass [] = refl
first_pass (c ∷ key) = ground (
  arith,
  first_pass key,
  replace_escape-plain b'1' b'/' b'0' (escape key),
  replace_escape-plain b'1' b'/' c (escape key),
)

second_pass : (key : Text) → replace_escape b'0' b'~' (half key) ≡ key
unfolding replace_escape
second_pass [] = refl
second_pass (c ∷ key) = ground (arith, second_pass key, replace_escape-plain b'0' b'~' c (half key))

bad_escape-plain :
    (c : ℕ) (s : Text) → (c == b'~') ≡ false → has_bad_escape (c ∷ s) ≡ has_bad_escape s
unfolding has_bad_escape
bad_escape-plain c [] h = ground (arith, h)
bad_escape-plain c (d ∷ s) h = ground (arith, h)

good_escape : (key : Text) → has_bad_escape (escape key) ≡ false
unfolding escape has_bad_escape
good_escape [] = refl
good_escape (c ∷ key) = ground (
  arith,
  good_escape key,
  bad_escape-plain b'0' (escape key),
  bad_escape-plain b'1' (escape key),
  bad_escape-plain c (escape key),
)

-- Every key has a token that is accepted and read back as the key, whatever `~` and `/` it holds.
pub unescape-escape :
    (key : Text) → (has_bad_escape (escape key) ≡ false) × (unescape (escape key) ≡ key)
unfolding unescape
unescape-escape key = (good_escape key, rw (first_pass key) (second_pass key))
