-- ===== src/Migration/Script.antt =====
-- db.py: the statements of an SQL script.
pub mod Pieces
use codex_research_skill.Base.{
  ℕ, zero, suc, ◌+◌, ◌-◌, Bool, true, false, ◌&&◌, ◌||◌, Option, none, some, List, [], ◌∷◌, ◌++◌,
  length, take, drop, leb, ◌==◌, if◌then◌else◌,
}
use codex_research_skill.Text.{Text, codes, starts_with}
use codex_research_skill.Text.Spaces.{strip}

-- A statement stripped, unless nothing is left of it.
unfoldable pub add_statement : Text → List Text → List Text
add_statement current statements = elim (strip current) [
  | [] ↦ statements
  | c ∷ rest ↦ statements ++ (c ∷ rest) ∷ []
]

-- the truth of a string
abbrev is_some_text : Text → Bool
is_some_text [] = false
is_some_text (_ ∷ _) = true

module _ (complete_statement : Text → Bool) where
  unfoldable pub sqlite_loop : List Text → Text → Text → List Text
  unfolding add_statement
  sqlite_loop statements current [] = add_statement current statements
  sqlite_loop statements current (c ∷ script) =
      let longer = current ++ c ∷ [] in
      let ended = sqlite_loop (add_statement longer statements) [] script in
      let open_ended = sqlite_loop statements longer script in
      if c == 59 && is_some_text (strip longer) && complete_statement (strip longer)
      then ended
      else open_ended

  -- `_split_sqlite_script`
  unfoldable pub split_sqlite_script : Text → List Text
  unfolding sqlite_loop
  split_sqlite_script script = sqlite_loop [] [] script

-- `_DOLLAR_QUOTE` after its first sign: the letters of a name and the closing sign.
unfoldable pub is_name_char : ℕ → Bool
is_name_char c =
    (leb 65 c && leb c 90) || (leb 97 c && leb c 122) || c == 95 || (leb 48 c && leb c 57)

dollar_name : Text → Option Text
unfolding is_name_char
dollar_name [] = none
dollar_name (c ∷ text) =
    let longer = dollar_name text in
    if c == 36
    then some (36 ∷ [])
    else if is_name_char c
    then elim longer [ some rest ↦ some (c ∷ rest) | none ↦ none ]
    else none

-- `_DOLLAR_QUOTE.match(script, index)` at a dollar sign; a name starts with no digit
unfoldable pub dollar_quote_at : Text → Option Text
unfolding dollar_name
dollar_quote_at [] = none
dollar_quote_at (_ ∷ []) = none
dollar_quote_at (_ ∷ d ∷ text) =
    if leb 48 d && leb d 57
    then none
    else elim (dollar_name (d ∷ text)) [ some rest ↦ some (36 ∷ rest) | none ↦ none ]

-- The variables `quote_char`, `dollar_quote`, `line_comment` and `block_comment_depth`, of which one
-- at most is set.
pub data Mode : Type 0 where
  outside line_comment : Mode
  block_comment : ℕ → Mode
  dollar_quote : Text → Mode
  quote : ℕ → Mode

-- What a round of the loop does: put so many characters on the statement and go on in a mode, or end
-- the statement.
pub data Move : Type 0 where
  keep : ℕ → Mode → Move
  cut : Move

-- the mode for a depth of block comments
abbrev in_block : ℕ → Mode
in_block zero = outside
in_block (suc n) = block_comment (suc n)

abbrev dollar_move : Option Text → Move
dollar_move (some tag) = keep (length tag) (dollar_quote tag)
dollar_move none = keep 1 outside

outside_move : ℕ → Text → Move
unfolding dollar_quote_at
outside_move c text =
    if starts_with text (codes "--")
    then keep 2 line_comment
    else if starts_with text (codes "/*")
    then keep 2 (block_comment 1)
    else if c == 39 || c == 34
    then keep 1 (quote c)
    else if c == 36
    then dollar_move (dollar_quote_at text)
    else if c == 59
    then cut
    else keep 1 outside

quote_move : ℕ → ℕ → Text → Move
quote_move q c [] = keep 1 (if c == q then outside else quote q)
quote_move q c (d ∷ _) =
    if c == 92
    then keep 2 (quote q)
    else if c == q
    then if d == q then keep 2 (quote q) else keep 1 outside
    else keep 1 (quote q)

-- One round of `while index < len(script)`, at the character and what follows it.
unfoldable pub next_move : Mode → ℕ → Text → Move
unfolding outside_move quote_move
next_move line_comment c rest = keep 1 (if c == 10 then outside else line_comment)
next_move (block_comment depth) c rest =
    if starts_with (c ∷ rest) (codes "/*")
    then keep 2 (block_comment (depth + 1))
    else if starts_with (c ∷ rest) (codes "*/")
    then keep 2 (in_block (depth - 1))
    else keep 1 (block_comment depth)
next_move (dollar_quote tag) c rest =
    if starts_with (c ∷ rest) tag then keep (length tag) outside else keep 1 (dollar_quote tag)
next_move (quote q) c rest = quote_move q c rest
next_move outside c rest = outside_move c (c ∷ rest)

-- `none` when the fuel ends first, which the length of the script prevents
unfoldable pub postgres_loop : ℕ → Mode → List Text → Text → Text → Option (List Text)
unfolding add_statement next_move
postgres_loop fuel mode statements current [] = some (add_statement current statements)
postgres_loop zero mode statements current (c ∷ script) = none
postgres_loop (suc fuel) mode statements current (c ∷ script) = elim (next_move mode c script) [
  | keep n next ↦
      postgres_loop fuel next statements (current ++ take n (c ∷ script)) (drop n (c ∷ script))
  | cut ↦ postgres_loop fuel outside (add_statement current statements) [] script
]

-- `_split_postgres_script`
unfoldable pub split_postgres_script : Text → Option (List Text)
unfolding postgres_loop
split_postgres_script script = postgres_loop (length script) outside [] [] script
