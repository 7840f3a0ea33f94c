-- ===== src/Text/Find.antt =====
-- `find_next` returns the first position at which a text stands, and skips none.
use codex_research_skill.Base.{
  ℕ, zero, suc, ◌+◌, ◌≤◌, ◌<◌, ◌≡◌, refl, ◌↔◌, ◌⊎◌, Bool, true, false, ◌&&◌, none, some, List, [],
  ◌∷◌, length, arith, Bool-cases, inl, inr,
}
use codex_research_skill.Text.{Text, same, stands_at, slice, find_next}

pub same_iff : (s t : Text) → (same s t ≡ true) ↔ (s ≡ t)
unfolding same
same_iff [] [] = ground arith
same_iff [] (b ∷ t) = ground arith
same_iff (a ∷ s) [] = ground arith
same_iff (a ∷ s) (b ∷ t) = ground (arith, same_iff s t)

pub same_refl : (s : Text) → same s s ≡ true
same_refl s = (same_iff s s).1 refl

pub stands_at_iff :
    (text exact : Text) (i : ℕ)
    → (stands_at text exact i ≡ true) ↔ (slice text i (i + length exact) ≡ exact)
unfolding stands_at
stands_at_iff text exact i = same_iff _ exact

-- The positions among the next `n` that pass a test.
unfoldable pub hits : (ℕ → Bool) → ℕ → ℕ → List ℕ
hits test zero position = []
hits test (suc n) position =
    let rest = hits test n (position + 1) in
    elim (test position) [ true ↦ position ∷ rest | false ↦ rest ]

-- `i` stands in the list.
abbrev pub Has : ℕ → List ℕ → Type 0
Has i [] = ⊥
Has i (x ∷ xs) = (i ≡ x) ⊎ Has i xs

-- Only positions in range that pass the test are listed.
pub hits-Has :
    (test : ℕ → Bool) (n position i : ℕ)
    → Has i (hits test n position)
    → (test i ≡ true) × (position ≤ i) × (i < position + n)
unfolding hits
hits-Has test zero position i h = elim h [ ]
hits-Has test (suc n) position i h = ground (arith, hits-Has test n (position + 1) i)

pub Has-hits :
    (test : ℕ → Bool) (n position i : ℕ)
    → test i ≡ true
    → position ≤ i
    → i < position + n
    → Has i (hits test n position)
unfolding hits
Has-hits test zero position i h lo hi = absurd (omega arith)
Has-hits test (suc n) position i h lo hi = ground (arith, Has-hits test n (position + 1) i h)

module _ (text exact : Text) (test : ℕ → Bool) where
  abbrev both : ℕ → Bool
  both i = stands_at text exact i && test i

  pub hits-find_none :
      (n position : ℕ) → find_next text exact n position ≡ none → hits both n position ≡ []
  unfolding find_next hits
  hits-find_none zero position h = ground arith
  hits-find_none (suc n) position h = ground (arith, hits-find_none n (position + 1))

  -- No position before the one found counts.
  pub hits-find_some :
      (n position start : ℕ)
      → find_next text exact n position ≡ some start
      → (k : ℕ) × (stands_at text exact start ≡ true)
        × (start + suc k ≡ position + n)
        × (position ≤ start)
        × (hits both n position ≡ hits both (suc k) start)
  unfolding find_next hits
  hits-find_some zero position start h = absurd (ground arith)
  hits-find_some (suc n) position start h = elim (Bool-cases (stands_at text exact position)) [
    | inl here ↦ found here (ground (arith, h, here))
    | inr past ↦
        let (k, at, room, above, same_hits) =
          hits-find_some n (position + 1) start (ground (arith, h, past)) in
        (k, at, omega arith, omega arith, ground (arith, same_hits, past))
  ]
    where
      found :
          stands_at text exact position ≡ true
          → position ≡ start
          → (k : ℕ) × (stands_at text exact start ≡ true)
            × (start + suc k ≡ position + suc n)
            × (position ≤ start)
            × (hits both (suc n) position ≡ hits both (suc k) start)
      found here e = (n, rw (← e) here, omega arith, omega arith, rw e)
