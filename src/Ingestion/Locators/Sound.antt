-- ===== src/Ingestion/Locators/Sound.antt =====
-- A locator is accepted exactly when every locator inside it is safe and none is too deep.
use codex_research_skill.Base.{
  some-injective, true_not_false, none_not_some, ℕ, zero, suc, ◌≤◌, ◌≡◌, refl, sym, subst, ◌∙◌, ◌↔◌,
  inl, inr, Bool, true, false, Option, none, some, List, [], ◌∷◌, All, Result, ok, reject_if, ◌>>◌,
  then-ok, err_not_ok, Bool-cases, Option-cases, arith,
}
use codex_research_skill.Text.{Text}
use codex_research_skill.Ingestion.Locators.{
  LocatorParts, Urls, UnsafeLocatorError, credential_parameter, is_http, is_secret_parameter_key,
  nested_http_locator, check_nested, check_fields, check_parts, validate_with, validate_level,
  validate_safe_locator,
}
use codex_research_skill.Ingestion.Locators.Parameters.{parameter_fields}
use codex_research_skill.Ingestion.Locators.Nesting.{Names, StandsIn, Inside, IsSafeHttp, IsSafe}

module _ (urls : Urls) where
  one_field :
      (check : Text → Result UnsafeLocatorError (Unit {0})) (secret : Bool) (inner : Option Text)
      (rest : Result UnsafeLocatorError (Unit {0}))
      → (reject_if secret credential_parameter >> check_nested urls check inner >> rest ≡ ok tt) ↔ (
          (secret ≡ false)
          × ((nested : Text) → inner ≡ some nested → check nested ≡ ok tt)
          × (rest ≡ ok tt))
  one_field check true inner rest = ((λ h. elim (err_not_ok h) [ ]), λ h. cc)
  one_field check false none rest = ((λ h. (refl, (λ nested e. cc), h)), λ h. h.2)
  one_field check false (some w) rest = (
    (λ h.
        let (passes, others) = then-ok (check w) rest h in
        (refl, (λ nested e. subst (λ t. check t ≡ ok tt) (some-injective e) passes), others)),
    λ h. let passes = h.1 w refl in cc,
  )

  -- The loop over the fields succeeds on keys that are no secret and nested locators that pass.
  check_fields_iff :
      (check : Text → Result UnsafeLocatorError (Unit {0})) (fields : List (Text × Text))
      → (check_fields urls check fields ≡ ok tt) ↔ (
          All (λ field. is_secret_parameter_key urls field.0 ≡ false) fields
          × ((nested : Text) → Names urls fields nested → check nested ≡ ok tt))
  unfolding check_fields
  check_fields_iff check [] = ((λ h. (tt, λ nested n. elim n [ ])), λ h. refl)
  check_fields_iff check ((key, value) ∷ fields) =
      let (there, back) = check_fields_iff check fields in
      let (split, join) =
        one_field check (is_secret_parameter_key urls key) (nested_http_locator urls value)
          (check_fields urls check fields) in
      (
        (λ h.
            let (open_key, passes, rest) = split h in
            let (keys, all_pass) = there rest in
            (
              (open_key, keys),
              λ nested names. elim names [
                | inl e ↦ passes nested e
                | inr later ↦ all_pass nested later
              ],
            )),
        λ h.
            let ((open_key, keys), all_pass) = h in
            join (
              open_key,
              (λ nested e. all_pass nested (inl e)),
              back (keys, λ nested n. all_pass nested (inr n)),
            ),
      )

  check_parts_iff :
      (value : Text) (parsed : LocatorParts)
      → check_parts urls value parsed ≡ ok tt
      → All
          (λ field. is_secret_parameter_key urls field.0 ≡ false)
          (parameter_fields parsed.query parsed.path)
      → IsSafeHttp urls value parsed
  unfolding check_parts
  check_parts_iff value parsed h keys = record {
    characters = ground arith;
    host = ground arith;
    port = ground arith;
    netloc = ground arith;
    username = ground arith;
    password = ground arith;
    fragment = ground arith;
    keys = keys;
  }

  IsSafeHttp-check_parts :
      (value : Text) (parsed : LocatorParts)
      → IsSafeHttp urls value parsed
      → check_parts urls value parsed ≡ ok tt
  unfolding check_parts
  IsSafeHttp-check_parts value parsed safe =
      ground (arith, safe.characters, safe.host, safe.port, safe.netloc, safe.fragment)

  abbrev Passes : (Text → Result UnsafeLocatorError (Unit {0})) → Text → Type 0
  Passes check value = (nested : Text) → StandsIn urls nested value → check nested ≡ ok tt

  module _ (check : Text → Result UnsafeLocatorError (Unit {0})) (value : Text) where
    validate_with-none : urls.urlsplit value ≡ none → validate_with urls check value ≡ ok tt → ⊥
    unfolding validate_with
    validate_with-none e h = cc

    module _ (parsed : LocatorParts) (e : urls.urlsplit value ≡ some parsed) where
      validate_with-http :
          is_http urls parsed ≡ true
          → validate_with urls check value ≡ (
              check_parts urls value parsed
              >> check_fields urls check (parameter_fields parsed.query parsed.path))
      unfolding validate_with
      validate_with-http http = rw (e, http) refl

      validate_with-other : is_http urls parsed ≡ false → validate_with urls check value ≡ ok tt
      unfolding validate_with
      validate_with-other other = rw (e, other) refl

      http-accepted :
          is_http urls parsed ≡ true
          → validate_with urls check value ≡ ok tt
          → IsSafe urls value × Passes check value
      http-accepted http h =
          let fields = parameter_fields parsed.query parsed.path in
          let (parts, loop) =
            then-ok (check_parts urls value parsed) (check_fields urls check fields)
              (sym (validate_with-http http) ∙ h) in
          let (keys, passes) = (check_fields_iff check fields).0 loop in
          (
            (parsed, e, λ _. check_parts_iff value parsed parts keys),
            λ nested (other, e2, _, names). passes nested (
                subst (λ p. Names urls (parameter_fields p.query p.path) nested)
                  (some-injective (sym e2 ∙ e)) names),
          )

      http-safe :
          is_http urls parsed ≡ true
          → IsSafeHttp urls value parsed
          → Passes check value
          → validate_with urls check value ≡ ok tt
      http-safe http safe passes =
          let loop =
            (check_fields_iff check (parameter_fields parsed.query parsed.path)).1
              (safe.keys, λ nested names. passes nested (parsed, e, http, names)) in
          rw (validate_with-http http) (rw (IsSafeHttp-check_parts value parsed safe) loop)

      other-accepted : is_http urls parsed ≡ false → IsSafe urls value × Passes check value
      other-accepted other = (
        (parsed, e, λ http. elim (true_not_false (sym http ∙ other)) [ ]),
        λ nested (p, e2, http, _).
            elim (true_not_false (
              sym http
              ∙ (subst (λ q. is_http urls q ≡ false) (some-injective (sym e ∙ e2)) other))) [ ],
      )

    -- One call accepts a safe locator whose nested locators pass the check, and no other.
    validate_with_iff :
        (validate_with urls check value ≡ ok tt) ↔ (IsSafe urls value × Passes check value)
    validate_with_iff = elim (Option-cases (urls.urlsplit value)) [
      | inl e ↦ (
        (λ h. elim (validate_with-none e h) [ ]),
        λ ((p, e2, _), _). elim (none_not_some (sym e ∙ e2)) [ ],
      )
      | inr (parsed, e) ↦ elim (Bool-cases (is_http urls parsed)) [
        | inl http ↦ (
          http-accepted parsed e http,
          λ ((p, e2, safe), passes).
              let same_parts = some-injective (sym e2 ∙ e) in
              http-safe parsed e http
                (subst (λ q. is_http urls q ≡ true → IsSafeHttp urls value q) same_parts safe http)
                passes,
        )
        | inr other ↦
            ((λ _. other-accepted parsed e other), λ _. validate_with-other parsed e other)
      ]
    ]

  abbrev Reaches : ℕ → Text → Type 0
  Reaches levels value =
      (n : ℕ) (inner : Text) → Inside urls n value inner → IsSafe urls inner × (n ≤ levels)

  level-zero : (value : Text) → validate_level urls zero value ≡ ok tt → Reaches zero value
  unfolding validate_level
  level-zero value h zero inner e =
      (subst (IsSafe urls) e ((validate_with_iff _ value).0 h).0, omega arith)
  level-zero value h (suc n) inner (nested, stands, _) =
      elim (err_not_ok (((validate_with_iff _ value).0 h).1 nested stands)) [ ]

  level-suc :
      (levels : ℕ) (value : Text)
      → ((nested : Text) → validate_level urls levels nested ≡ ok tt → Reaches levels nested)
      → validate_level urls (suc levels) value ≡ ok tt
      → Reaches (suc levels) value
  unfolding validate_level
  level-suc levels value ih h zero inner e =
      (subst (IsSafe urls) e ((validate_with_iff _ value).0 h).0, omega arith)
  level-suc levels value ih h (suc n) inner (nested, stands, inside) =
      let (safe, depth) =
        ih nested (((validate_with_iff _ value).0 h).1 nested stands) n inner inside in
      (safe, omega (arith, depth))

  -- With `levels` levels left.
  validate_level_iff :
      (levels : ℕ) (value : Text)
      → (validate_level urls levels value ≡ ok tt) ↔ Reaches levels value
  unfolding validate_level
  validate_level_iff zero value = (
    level-zero value,
    λ h. (validate_with_iff _ value).1 (
      (h 0 value refl).0,
      λ nested stands.
          let (_, depth) = h 1 nested (nested, stands, refl) in
          let bad : ⊥ = omega (arith, depth) in elim bad [ ],
    ),
  )
  validate_level_iff (suc levels) value = (
    level-suc levels value (λ nested. (validate_level_iff levels nested).0),
    λ h. (validate_with_iff _ value).1 (
      (h 0 value refl).0,
      λ nested stands. (validate_level_iff levels nested).1 (λ n inner inside.
          let (safe, depth) = h (suc n) inner (nested, stands, inside) in
          (safe, omega (arith, depth))),
    ),
  )

  -- A locator is accepted, as it is, exactly when each locator that stands in it, however deep, is safe
  -- and is at most three parameters deep; the locator itself is the one at depth zero.
  pub validate_safe_locator_iff :
      (value : Text)
      → (validate_safe_locator urls value ≡ ok value)
        ↔ ((n : ℕ) (inner : Text) → Inside urls n value inner → IsSafe urls inner × (n ≤ 3))
  unfolding validate_safe_locator
  validate_safe_locator_iff value = (
    (λ h. (validate_level_iff 3 value).0 (then-ok (validate_level urls 3 value) (ok value) h).0),
    λ h. rw ((validate_level_iff 3 value).1 h) refl,
  )
