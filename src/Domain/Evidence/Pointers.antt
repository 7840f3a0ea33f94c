-- ===== src/Domain/Evidence/Pointers.antt =====
-- The JSON values of a source version and the pointers into them (`_resolve_json_pointer`).
pub mod Escapes
use codex_research_skill.Base.{
  ℕ, zero, suc, Bool, false, ◌&&◌, ◌||◌, not, Option, none, some, List, [], ◌∷◌, length, ltb, ◌==◌,
  if◌then◌else◌, Result, ok, err, ◌>>=◌,
}
use codex_research_skill.Text.{Text, codes, same, starts_with}
use codex_research_skill.Domain.Evidence.{EvidenceError, invalid_selector, unresolved, bad_number}
use codex_research_skill.Domain.Evidence.Selectors.{split_on}

-- A number is kept as the text that `json` writes for it.
mutual
  pub data Json : Type 0 where
    null : Json
    boolean : Bool → Json
    number : Text → Json
    text : Text → Json
    array : Items → Json
    object : Fields → Json

  pub data Items : Type 0 where
    nil : Items
    cons : Json → Items → Items

  pub data Fields : Type 0 where
    end : Fields
    field : Text → Json → Fields → Fields

item_at : Items → ℕ → Option Json
item_at nil i = none
item_at (cons v items) zero = some v
item_at (cons v items) (suc i) = item_at items i

unfoldable pub field_at : Fields → Text → Option Json
unfolding same
field_at end key = none
field_at (field k v fields) key = if same k key then some v else field_at fields key

-- `re.search(r"~(?:[^01]|$)", token)`
pub has_bad_escape : Text → Bool
has_bad_escape [] = false
has_bad_escape (c ∷ []) = c == b'~'
has_bad_escape (c ∷ d ∷ rest) =
    (c == b'~' && not (d == b'0' || d == b'1')) || has_bad_escape (d ∷ rest)

-- `token.replace("~1", "/").replace("~0", "~")`: each call replaces from left to right.
replace_escape : ℕ → ℕ → Text → Text
replace_escape digit by [] = []
replace_escape digit by (c ∷ []) = c ∷ []
replace_escape digit by (c ∷ d ∷ rest) =
    let found = by ∷ replace_escape digit by rest in
    let plain = c ∷ replace_escape digit by (d ∷ rest) in
    if c == b'~' && d == digit then found else plain

unfoldable pub unescape : Text → Text
unfolding replace_escape
unescape token = replace_escape b'0' b'~' (replace_escape b'1' b'/' token)

abbrev or_unresolved : Option Json → Result EvidenceError Json
or_unresolved none = err unresolved
or_unresolved (some v) = ok v

-- `str.isdigit` and `int` range over all of Unicode's digits; `int` may refuse a text of digits.
pub record Digits : Type 0 where
  pub isdigit : Text → Bool
  pub int : Text → Option ℕ

module _ (python : Digits) where
  open python use {isdigit, int}

  nth : Items → Option ℕ → Result EvidenceError Json
  unfolding item_at
  nth items none = err bad_number
  nth items (some index) = or_unresolved (item_at items index)

  -- One token of the pointer.
  child : Json → Text → Result EvidenceError Json
  unfolding field_at nth starts_with
  child (object fields) token = or_unresolved (field_at fields token)
  child (array items) token =
      if not (isdigit token) || (ltb 1 (length token) && starts_with token (codes "0"))
      then err unresolved
      else nth items (int token)
  child null token = err unresolved
  child (boolean _) token = err unresolved
  child (number _) token = err unresolved
  child (text _) token = err unresolved

  walk : Json → List Text → Result EvidenceError Json
  unfolding has_bad_escape unescape child
  walk current [] = ok current
  walk current (token ∷ tokens) =
      if has_bad_escape token
      then err invalid_selector
      else (child current (unescape token) >>= λ next. walk next tokens)

  -- The value that a pointer names.
  pub point_to : Json → Text → Result EvidenceError Json
  unfolding walk split_on
  point_to value [] = ok value
  point_to value (_ ∷ rest) = walk value (split_on b'/' rest)
