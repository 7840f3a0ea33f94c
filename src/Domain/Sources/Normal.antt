-- ===== src/Domain/Sources/Normal.antt =====
-- A source version that is accepted is well formed, and is accepted again as it is.
use codex_research_skill.Base.{
  ℕ, ◌≡◌, refl, ap, subst, ◌∙◌, true, false, ◌&&◌, Option, none, some, [], ◌∷◌, length, any, leb,
  ◌==◌, arith, and-true, Result, ok, err, guard, >>=-eq-ok, then-ok, ok-injective, err_not_ok,
  guard-ok,
}
use Prim.Native.Nat.{◌/◌, ◌*◌}
use codex_research_skill.Text.{Text}
use codex_research_skill.Text.Spaces.{strip}
use codex_research_skill.Text.Strips.{length-strip, strip_twice}
use codex_research_skill.Ingestion.Blobs.{Bytes, BlobError}
use codex_research_skill.Domain.Sources.{
  Moment, Timestamp, iso_text, Library, source_version_error, check_source_id, from_blobs, count_of,
  key_or, key_of, replace_z,
}
use codex_research_skill.Domain.Sources.Validate.{
  parsed, in_utc, normalize_utc_timestamp, normalize_optional,
}

-- What datetime says of a UTC time with whole seconds: it is printed without a Z and read back.
pub record TimeLaws (lib : Library) : Type 0 where
  pub no_z : (n : ℕ) → any (λ c. c == 90) (lib.isoformat n) ≡ false
  pub read_back :
      (n : ℕ)
      → lib.fromisoformat (lib.isoformat n)
        ≡ some (record { has_offset = true; microseconds = n * 1_000_000 })

pub check_source_id_twice :
    (id normal : Text) → check_source_id id ≡ ok normal → check_source_id normal ≡ ok normal
unfolding check_source_id
check_source_id_twice id normal h =
    let (fits, e) =
      then-ok (guard (leb 1 (length (strip id)) && leb (length id) 200) source_version_error)
        (ok (strip id)) h in
    let (some_text, short) =
      and-true (leb 1 (length (strip id))) (leb (length id) 200) (guard-ok _ _ fits) in
    let stripped : strip id ≡ normal = ok-injective e in
    rw (← stripped) (rw (strip_twice id) (ground (arith, some_text, short, length-strip id)))

pub from_blobs-ok : {A : Type 0} (r : Result BlobError A) (a : A) → from_blobs r ≡ ok a → r ≡ ok a
from_blobs-ok (ok b) a h = ground (arith, h)
from_blobs-ok (err e) a h = elim (err_not_ok h) [ ]

pub count_of_twice :
    (bytes : Option Bytes) (count normal : Option ℕ)
    → count_of bytes count ≡ ok normal
    → count_of bytes normal ≡ ok normal
unfolding count_of
count_of_twice none count normal h = refl
count_of_twice (some bytes) count normal h = ground (arith, h)

key_or-some :
    (normal kind digest : Text)
    → leb 1 (length normal) ≡ true
    → key_or (some normal) kind digest ≡ normal
key_or-some [] kind digest h = ground (arith, h)
key_or-some (c ∷ key) kind digest h = refl

pub key_of_twice :
    (version_key : Option Text) (kind digest normal : Text)
    → key_of version_key kind digest ≡ ok normal
    → key_of (some normal) kind digest ≡ ok normal
unfolding key_of
key_of_twice version_key kind digest normal h =
    let key = key_or version_key kind digest in
    let (fits, e) =
      then-ok (guard (leb 1 (length key) && leb (length key) 500) source_version_error) (ok key)
        h in
    let same_key : key ≡ normal = ok-injective e in
    let bounds : (leb 1 (length normal) && leb (length normal) 500) ≡ true =
      subst (λ k. (leb 1 (length k) && leb (length k) 500) ≡ true) same_key (guard-ok _ _ fits) in
    rw
      (key_or-some normal kind digest
        (and-true (leb 1 (length normal)) (leb (length normal) 500) bounds).0)
      (rw bounds refl)

replace_z_same : (s : Text) → any (λ c. c == 90) s ≡ false → replace_z s ≡ s
unfolding replace_z
replace_z_same [] h = refl
replace_z_same (c ∷ s) h = ground (arith, replace_z_same s)

module _ (lib : Library) (laws : TimeLaws lib) where
  in_utc-printed :
      (o : Option Moment) (normal : Text)
      → in_utc lib o ≡ ok normal
      → (n : ℕ) × (lib.isoformat n ≡ normal)
  in_utc-printed none normal h = elim (err_not_ok h) [ ]
  in_utc-printed (some moment) normal h =
      let (_, e) =
        then-ok (guard moment.has_offset source_version_error)
          (ok (lib.isoformat (moment.microseconds / 1_000_000))) h in
      (moment.microseconds / 1_000_000, ok-injective e)

  whole_seconds : (n : ℕ) → (n * 1_000_000) / 1_000_000 ≡ n
  whole_seconds n = omega arith

  reads_back :
      (n : ℕ) → normalize_utc_timestamp lib (iso_text (lib.isoformat n)) ≡ ok (lib.isoformat n)
  unfolding normalize_utc_timestamp
  reads_back n =
      ap (λ t. in_utc lib (lib.fromisoformat t)) (replace_z_same (lib.isoformat n) (laws.no_z n))
      ∙ ap (in_utc lib) (laws.read_back n)
      ∙ ap (λ k. ok (lib.isoformat k)) (whole_seconds n)

  pub normalize_twice :
      (value : Timestamp) (normal : Text)
      → normalize_utc_timestamp lib value ≡ ok normal
      → normalize_utc_timestamp lib (iso_text normal) ≡ ok normal
  unfolding normalize_utc_timestamp
  normalize_twice value normal h =
      let (n, e) = in_utc-printed (parsed lib value) normal h in
      subst (λ t. normalize_utc_timestamp lib (iso_text t) ≡ ok t) e (reads_back n)

  pub normalize_optional_twice :
      (value normal : Option Timestamp)
      → normalize_optional lib value ≡ ok normal
      → normalize_optional lib normal ≡ ok normal
  unfolding normalize_optional
  normalize_optional_twice none normal h = ground (arith, h)
  normalize_optional_twice (some value) normal h =
      let (text, e, last) = >>=-eq-ok (normalize_utc_timestamp lib value) _ h in
      let same_text : some (iso_text text) ≡ normal = ok-injective last in
      rw (← same_text) (rw (normalize_twice value text e) refl)
