-- ===== src/Migration/Script/Pieces.antt =====
-- The statements of a script are the pieces between its semicolons, and no character is lost.
use codex_research_skill.Base.{
  ℕ, zero, suc, ◌-◌, ◌≤◌, ◌≡◌, refl, sym, ap, subst, ◌∙◌, Bool, Option, none, some, List, [], ◌∷◌,
  ◌++◌, length, take, drop, length-drop, arith, both_branches,
}
use mathlib.Core.List.{append-nil, append_assoc}
use codex_research_skill.Text.{Text}
use codex_research_skill.Text.Spaces.{strip, join_with, take-drop}
use codex_research_skill.Migration.Script.{
  Mode, outside, line_comment, block_comment, dollar_quote, quote, Move, keep, cut, next_move,
  outside_move, quote_move, sqlite_loop, split_sqlite_script, postgres_loop, split_postgres_script,
  add_statement, in_block, dollar_quote_at, dollar_move,
}

-- A mode whose dollar quote, if it is in one, is a text with a character.
abbrev IsSound : Mode → Type 0
IsSound (dollar_quote tag) = 1 ≤ length tag
IsSound _ = Unit

-- A move that goes on and stays sound.
abbrev IsAdvance : Move → Type 0
IsAdvance (keep n mode) = (1 ≤ n) × IsSound mode
IsAdvance cut = Unit

dollar_quote_at-length : (text tag : Text) → dollar_quote_at text ≡ some tag → 1 ≤ length tag
unfolding dollar_quote_at
dollar_quote_at-length [] tag h = cc
dollar_quote_at-length (_ ∷ []) tag h = cc
dollar_quote_at-length (c ∷ d ∷ text) tag h = ground (arith, h)

in_block-IsSound : (n : ℕ) → IsSound (in_block n)
in_block-IsSound zero = tt
in_block-IsSound (suc n) = tt

dollar_move-IsAdvance : (text : Text) → IsAdvance (dollar_move (dollar_quote_at text))
dollar_move-IsAdvance text =
    elim (dollar_quote_at text)
        as (λ o. ((tag : Text) → o ≡ some tag → 1 ≤ length tag) → IsAdvance (dollar_move o)) [
          | none ↦ λ h. ground arith
          | some tag ↦ λ h. (h tag refl, h tag refl)
        ]
      (dollar_quote_at-length text)

outside_move-IsAdvance : (c : ℕ) (text : Text) → IsAdvance (outside_move c text)
unfolding outside_move
outside_move-IsAdvance c text = ground (arith, dollar_move-IsAdvance text)

quote_move-IsAdvance : (q c : ℕ) (text : Text) → IsAdvance (quote_move q c text)
unfolding quote_move
quote_move-IsAdvance q c [] = ground arith
quote_move-IsAdvance q c (d ∷ text) = ground arith

next_move-IsAdvance :
    (mode : Mode) (c : ℕ) (text : Text) → IsSound mode → IsAdvance (next_move mode c text)
unfolding next_move
next_move-IsAdvance line_comment c text h = ground arith
next_move-IsAdvance (block_comment depth) c text h = ground (arith, in_block-IsSound (depth - 1))
next_move-IsAdvance (dollar_quote tag) c text h = ground (arith, h)
next_move-IsAdvance (quote q) c text h = quote_move-IsAdvance q c text
next_move-IsAdvance outside c text h = outside_move-IsAdvance c (c ∷ text)

dollar_move-cut : (o : Option Text) (c : ℕ) → dollar_move o ≡ cut → c ≡ 59
dollar_move-cut none c h = ground (arith, h)
dollar_move-cut (some tag) c h = ground (arith, h)

outside_move-cut : (c : ℕ) (text : Text) → outside_move c text ≡ cut → c ≡ 59
unfolding outside_move
outside_move-cut c text h = ground (arith, h, dollar_move-cut (dollar_quote_at text) c)

-- Only a semicolon ends a statement.
next_move-cut : (mode : Mode) (c : ℕ) (text : Text) → next_move mode c text ≡ cut → c ≡ 59
unfolding next_move quote_move
next_move-cut line_comment c text h = ground (arith, h)
next_move-cut (block_comment depth) c text h = ground (arith, h)
next_move-cut (dollar_quote tag) c text h = ground (arith, h)
next_move-cut (quote q) c [] h = ground (arith, h)
next_move-cut (quote q) c (d ∷ text) h = ground (arith, h)
next_move-cut outside c text h = outside_move-cut c (c ∷ text) h

-- The statements that pieces of a script are, stripped and without the blank ones.
abbrev pub statements_of : List Text → List Text
statements_of [] = []
statements_of (piece ∷ pieces) = elim (strip piece) [
  | [] ↦ statements_of pieces
  | c ∷ rest ↦ (c ∷ rest) ∷ statements_of pieces
]

add_statement-statements_of :
    (piece : Text) (statements pieces : List Text)
    → add_statement piece statements ++ statements_of pieces
      ≡ statements ++ statements_of (piece ∷ pieces)
unfolding add_statement
add_statement-statements_of piece statements pieces =
    elim (strip piece)
      as (λ t.
        elim t [ [] ↦ statements | c ∷ rest ↦ statements ++ (c ∷ rest) ∷ [] ]
          ++ statements_of pieces
        ≡ statements
          ++ elim t [ [] ↦ statements_of pieces | c ∷ rest ↦ (c ∷ rest) ∷ statements_of pieces ]) [
            | [] ↦ refl
            | c ∷ rest ↦ append_assoc statements _ _
          ]

-- Pieces that put together make up a text, and whose statements come after others.
abbrev pub Pieces : Text → Option (List Text) → List Text → Text → Type 0
Pieces separator result statements text =
    (first : Text) × (others : List Text) × (join_with separator (first ∷ others) ≡ text)
    × (result ≡ some (statements ++ statements_of (first ∷ others)))

last-Pieces :
    (separator current : Text) (statements : List Text)
    → Pieces separator (some (add_statement current statements)) statements (current ++ [])
unfolding join_with
last-Pieces separator current statements = (
  current,
  [],
  sym (append-nil current),
  ap some (sym (append-nil _) ∙ add_statement-statements_of current statements []),
)

next-Pieces :
    (separator current text : Text) (statements : List Text) (result : Option (List Text))
    → Pieces separator result (add_statement current statements) text
    → Pieces separator result statements (current ++ (separator ++ text))
unfolding join_with
next-Pieces separator current text statements result (first, others, joined, eq) = (
  current,
  first ∷ others,
  ap (λ t. current ++ (separator ++ t)) joined,
  eq ∙ ap some (add_statement-statements_of current statements (first ∷ others)),
)

abbrev pub semicolon : Text
semicolon = 59 ∷ []

postgres_loop-Pieces :
    (fuel : ℕ) (mode : Mode) (statements : List Text) (current script : Text)
    → length script ≤ fuel
    → IsSound mode
    → Pieces semicolon
        (postgres_loop fuel mode statements current script)
        statements
        (current ++ script)
unfolding postgres_loop
postgres_loop-Pieces fuel mode statements current [] h k = last-Pieces semicolon current statements
postgres_loop-Pieces zero mode statements current (c ∷ script) h k =
    let bad : ⊥ = omega (arith, h) in elim bad [ ]
postgres_loop-Pieces (suc fuel) mode statements current (c ∷ script) h k =
    elim (next_move mode c script)
        as (λ m.
          IsAdvance m
          → (m ≡ cut → c ≡ 59)
          → Pieces semicolon
              (elim m [
                | keep n next ↦
                    postgres_loop fuel next statements (current ++ take n (c ∷ script))
                      (drop n (c ∷ script))
                | cut ↦ postgres_loop fuel outside (add_statement current statements) [] script
              ])
              statements (current ++ c ∷ script)) [
                | keep n next ↦ λ a _.
                    let (positive, sound) = a in
                    let (first, others, joined, result) =
                      postgres_loop-Pieces fuel next statements (current ++ take n (c ∷ script))
                        (drop n (c ∷ script))
                        (omega (arith, h, positive, length-drop n (c ∷ script))) sound in
                    (
                      first,
                      others,
                      joined
                          ∙ append_assoc current _ _
                          ∙ ap (λ t. current ++ t) (take-drop n (c ∷ script)),
                      result,
                    )
                | cut ↦ λ _ s.
                    subst
                      (λ d.
                        Pieces semicolon
                          (postgres_loop fuel outside (add_statement current statements) [] script)
                          statements (current ++ d ∷ script))
                      (sym (s refl))
                      (next-Pieces semicolon current script statements _ (
                        postgres_loop-Pieces fuel outside (add_statement current statements) []
                          script (omega (arith, h)) tt))
              ]
      (next_move-IsAdvance mode c script k) (next_move-cut mode c script)

-- Splitting a script for PostgreSQL ends on every script and loses no character: the statements are
-- those of pieces that, put together with a semicolon between them, are the script.
pub split_postgres_script-Pieces :
    (script : Text) → Pieces semicolon (split_postgres_script script) [] script
unfolding split_postgres_script
split_postgres_script-Pieces script =
    postgres_loop-Pieces (length script) outside [] [] script (omega arith) tt

module _ (complete_statement : Text → Bool) where
  sqlite_loop-Pieces :
      (statements : List Text) (current script : Text)
      → Pieces []
          (some (sqlite_loop complete_statement statements current script))
          statements
          (current ++ script)
  unfolding sqlite_loop
  sqlite_loop-Pieces statements current [] = last-Pieces [] current statements
  sqlite_loop-Pieces statements current (c ∷ script) =
      let longer = current ++ c ∷ [] in
      let ended =
        next-Pieces [] longer script statements _
          (sqlite_loop-Pieces (add_statement longer statements) [] script) in
      let open_ended = sqlite_loop-Pieces statements longer script in
      subst
        (λ t.
          Pieces [] (some (sqlite_loop complete_statement statements current (c ∷ script)))
            statements t)
        (append_assoc current (c ∷ []) script)
        (both_branches (λ r. Pieces [] (some r) statements (longer ++ script)) _ ended open_ended)

  -- Splitting a script for SQLite loses no character: the statements are those of pieces that
  -- put together are the script.
  pub split_sqlite_script-Pieces :
      (script : Text) → Pieces [] (some (split_sqlite_script complete_statement script)) [] script
  unfolding split_sqlite_script
  split_sqlite_script-Pieces script = sqlite_loop-Pieces [] [] script
