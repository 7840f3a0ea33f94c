-- ===== src/Migration/Packages/Framing.antt =====
-- The framing of the components of a bundle keeps them apart.
use codex_research_skill.Base.{
  ℕ, zero, suc, ◌<◌, ◌≡◌, refl, ap, sym, ◌∙◌, List, [], ◌∷◌, ◌++◌, length, length-append, ltb, ok,
  err, >>=-eq-ok, ok-injective, ltb→lt, arith, Bool-cases, inl, inr, if◌then◌else◌, err_not_ok,
  Option, none, some,
}
use Prim.Native.Nat.{◌/◌, ◌%◌, ◌^◌}
use codex_research_skill.Migration.Packages.{
  MigrationError, Bytes, Codecs, or_raise, undecodable, overflow,
}
use codex_research_skill.Text.{Text}
use mathlib.Core.List.{append_assoc}
use codex_research_skill.Migration.Packages.Checksum.{to_bytes, sized, frames, unix_lines}

append-cancel :
    (xs ys : Bytes) {us vs : Bytes}
    → length xs ≡ length ys
    → xs ++ us ≡ ys ++ vs
    → (xs ≡ ys) × (us ≡ vs)
append-cancel [] [] h k = (refl, k)
append-cancel [] (y ∷ ys) h k = let bad : ⊥ = omega (arith, h) in elim bad [ ]
append-cancel (x ∷ xs) [] h k = let bad : ⊥ = omega (arith, h) in elim bad [ ]
append-cancel (x ∷ xs) (y ∷ ys) {us} {vs} h k =
    let tails : xs ++ us ≡ ys ++ vs = ground (arith, k) in
    let heads : x ≡ y = ground (arith, k) in
    let (p, q) = append-cancel xs ys (omega (arith, h)) tails in
    (ap (λ t. x ∷ t) p ∙ ap (λ z. z ∷ ys) heads, q)

length-to_bytes : (width n : ℕ) → length (to_bytes width n) ≡ width
unfolding to_bytes
length-to_bytes zero n = refl
length-to_bytes (suc width) n =
    length-append (to_bytes width (n / 256)) (n % 256 ∷ [])
    ∙ omega (arith, length-to_bytes width (n / 256))

to_bytes-injective :
    (width n m : ℕ)
    → n < 256 ^ width
    → m < 256 ^ width
    → to_bytes width n ≡ to_bytes width m
    → n ≡ m
unfolding to_bytes
to_bytes-injective zero n m h k e = omega (arith, h, k)
to_bytes-injective (suc width) n m h k e =
    let (high, low) =
      append-cancel (to_bytes width (n / 256)) (to_bytes width (m / 256))
        (length-to_bytes width _ ∙ sym (length-to_bytes width _)) e in
    let rest =
      to_bytes-injective width (n / 256) (m / 256) (omega (arith, h)) (omega (arith, k)) high in
    let digit : n % 256 ≡ m % 256 = ground (arith, low) in omega (arith, rest, digit)

sized-ok :
    (width : ℕ) (content framed : Bytes)
    → sized width content ≡ ok framed
    → (length content < 256 ^ width) × (framed ≡ to_bytes width (length content) ++ content)
sized-ok width content framed h = elim (Bool-cases (ltb (length content) (256 ^ width))) [
  | inl fits ↦ (
    ltb→lt _ _ fits,
    sym (
        ok-injective (
          ap (λ b. if b then ok (to_bytes width (length content) ++ content) else err overflow)
            (sym fits)
          ∙ h)),
  )
  | inr big ↦
      elim (err_not_ok (
        ap (λ b. if b then ok (to_bytes width (length content) ++ content) else err overflow)
          (sym big)
        ∙ h)) [ ]
]

-- What is framed is found again before what follows it.
sized-injective :
    (width : ℕ) (c c' x x' r r' : Bytes)
    → sized width c ≡ ok x
    → sized width c' ≡ ok x'
    → x ++ r ≡ x' ++ r'
    → (c ≡ c') × (r ≡ r')
sized-injective width c c' x x' r r' h h' e =
    let (fits, framed) = sized-ok width c x h in
    let (fits', framed') = sized-ok width c' x' h' in
    let joined =
      sym (append_assoc (to_bytes width (length c)) c r)
      ∙ ap (λ t. t ++ r) (sym framed)
      ∙ e
      ∙ ap (λ t. t ++ r') framed'
      ∙ append_assoc (to_bytes width (length c')) c' r' in
    let (lengths, rest) =
      append-cancel (to_bytes width (length c)) (to_bytes width (length c'))
        (length-to_bytes width (length c) ∙ sym (length-to_bytes width (length c'))) joined in
    append-cancel c c' (to_bytes-injective width (length c) (length c') fits fits' lengths) rest

or_raise-ok :
    {A : Type 0} (o : Option A) (e : MigrationError) (a : A) → or_raise o e ≡ ok a → o ≡ some a
or_raise-ok none e a h = elim (err_not_ok h) [ ]
or_raise-ok (some b) e a h = ap some (ok-injective h)

module _ (io : Codecs) where
  -- the content of a component with the line ends of Unix
  abbrev pub normal : Option Text → Option Bytes
  unfolding unix_lines
  normal none = none
  normal (some text) = some (io.encode (unix_lines text))

  -- Components with equal names and, but for the line ends, equal contents.
  abbrev pub Same : List (Text × Bytes) → List (Text × Bytes) → Type 0
  unfolding normal
  Same [] [] = Unit
  Same ((name, raw) ∷ cs) ((name', raw') ∷ cs') =
      (io.encode name ≡ io.encode name')
      × (normal (io.decode raw) ≡ normal (io.decode raw'))
      × Same cs cs'
  Same [] (_ ∷ _) = ⊥
  Same (_ ∷ _) [] = ⊥

  framed-parts :
      (name : Text) (raw : Bytes) (cs : List (Text × Bytes)) (x : Bytes)
      → frames io ((name, raw) ∷ cs) ≡ ok x
      → (decoded : Text) × (header : Bytes) × (content : Bytes) × (rest : Bytes) × (io.decode raw
          ≡ some decoded)
        × (sized 4 (io.encode name) ≡ ok header)
        × (sized 8 (io.encode (unix_lines decoded)) ≡ ok content)
        × (frames io cs ≡ ok rest)
        × (x ≡ header ++ (content ++ rest))
  unfolding frames
  framed-parts name raw cs x h =
      let (decoded, d, h1) = >>=-eq-ok (or_raise (io.decode raw) (undecodable name)) _ h in
      let (header, a, h2) = >>=-eq-ok (sized 4 (io.encode name)) _ h1 in
      let (content, b, h3) = >>=-eq-ok (sized 8 (io.encode (unix_lines decoded))) _ h2 in
      let (rest, c, h4) = >>=-eq-ok (frames io cs) _ h3 in
      (decoded, header, content, rest, or_raise-ok _ _ _ d, a, b, c, sym (ok-injective h4))

  -- Two bundles with as many components that are fed to the digest as the same bytes have components of
  -- equal names and, but for the line ends, equal contents.
  pub frames-injective :
      (cs cs' : List (Text × Bytes)) (x : Bytes)
      → length cs ≡ length cs'
      → frames io cs ≡ ok x
      → frames io cs' ≡ ok x
      → Same cs cs'
  unfolding normal
  frames-injective [] [] x l h h' = tt
  frames-injective [] (_ ∷ _) x l h h' = let bad : ⊥ = omega (arith, l) in bad
  frames-injective (_ ∷ _) [] x l h h' = let bad : ⊥ = omega (arith, l) in bad
  frames-injective ((name, raw) ∷ cs) ((name', raw') ∷ cs') x l h h' =
      let (d, header, content, rest, decoded, a, b, c, e) = framed-parts name raw cs x h in
      let (d', header', content', rest', decoded', a', b', c', e') =
        framed-parts name' raw' cs' x h' in
      let (names, tails) =
        sized-injective 4 _ _ header header' (content ++ rest) (content' ++ rest') a a'
          (sym e ∙ e') in
      let (contents, others) = sized-injective 8 _ _ content content' rest rest' b b' tails in
      (
        names,
        ap normal decoded ∙ ap some contents ∙ sym (ap normal decoded'),
        frames-injective cs cs' rest (omega (arith, l)) c (c' ∙ ap (λ t. ok t) (sym others)),
      )
