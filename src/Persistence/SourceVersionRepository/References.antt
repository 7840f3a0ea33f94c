-- ===== src/Persistence/SourceVersionRepository/References.antt =====
-- The references from source versions to content, and what an insertion does to them.
use codex_research_skill.Base.{
  true_not_false, find-append, ◌≡◌, refl, subst, inl, inr, false, ◌&&◌, ◌||◌, Option, none, some,
  List, [], ◌∷◌, ◌++◌, All, any, is_some, arith, Option-cases, ok, guard, reject_if, ◌>>◌, then-ok,
  ok-injective, reject_if-ok,
}
use codex_research_skill.Text.{Text, same}
use codex_research_skill.Text.Find.{same_refl}
use codex_research_skill.Persistence.SourceVersionRepository.{
  ContentObjectRecord, SourceVersionRecord, Catalog, integrity_error, find_content, find_source,
  refers_to_content, is_mismatch, reference_error, has_reference_error, insert_content_object,
  insert_source_version,
}

abbrev pub Rows : Type 0
Rows = List ContentObjectRecord

-- Each row is the one that its id finds.
abbrev pub FoundById : Rows → Type 0
FoundById rows = All (λ c. find_content c.id rows ≡ some c) rows

pub find_content-append :
    (id : Text) (rows more : Rows) (c : ContentObjectRecord)
    → find_content id rows ≡ some c
    → find_content id (rows ++ more) ≡ some c
unfolding find_content
find_content-append id rows more c h = find-append (λ row. same row.id id) rows more c h

reference_error-append :
    (rows more : Rows) (v : SourceVersionRecord) (id : Option Text)
    → reference_error rows v id ≡ false
    → reference_error (rows ++ more) v id ≡ false
unfolding reference_error
reference_error-append rows more v none h = refl
reference_error-append rows more v (some id) h = elim (Option-cases (find_content id rows)) [
  | inl e ↦ elim (true_not_false (subst (λ o. is_mismatch o v ≡ false) e h)) [ ]
  | inr (c, e) ↦
      rw (find_content-append id rows more c e) (subst (λ o. is_mismatch o v ≡ false) e h)
]

pub has_reference_error-append :
    (rows more : Rows) (v : SourceVersionRecord)
    → has_reference_error rows v ≡ false
    → has_reference_error (rows ++ more) v ≡ false
unfolding has_reference_error
has_reference_error-append rows more v h = reference_error-append rows more v v.content_object_id h

-- A row that is unlike all others is found by its id once it is added.
find_content-new :
    (rows : Rows) (new : ContentObjectRecord)
    → any
        (λ row.
          same row.id new.id || same row.sha256 new.sha256 || same row.storage_key new.storage_key)
        rows
      ≡ false
    → find_content new.id (rows ++ new ∷ []) ≡ some new
unfolding find_content
find_content-new [] new h = ground (arith, same_refl new.id)
find_content-new (row ∷ rows) new h = ground (arith, h, find_content-new rows new)

pub insert_content_object-ok :
    (new : ContentObjectRecord) (before after : Catalog)
    → insert_content_object new before ≡ ok after
    → (record before { content_objects = before.content_objects ++ new ∷ [] } ≡ after)
      × (find_content new.id (before.content_objects ++ new ∷ []) ≡ some new)
unfolding insert_content_object
insert_content_object-ok new before after h =
    let clash =
      any
        (λ (row : ContentObjectRecord).
          same row.id new.id || same row.sha256 new.sha256 || same row.storage_key new.storage_key)
        before.content_objects in
    let (free, e) =
      then-ok (reject_if clash integrity_error)
        (ok (record before { content_objects = before.content_objects ++ new ∷ [] })) h in
    (ok-injective e, find_content-new before.content_objects new (reject_if-ok _ _ free))

pub insert_source_version-ok :
    (new : SourceVersionRecord) (before after : Catalog)
    → insert_source_version new before ≡ ok after
    → record before { source_versions = before.source_versions ++ new ∷ [] } ≡ after
unfolding insert_source_version
insert_source_version-ok new before after h =
    let clash =
      any
        (λ (row : SourceVersionRecord).
          same row.id new.id
          || (same row.source_id new.source_id && same row.version_key new.version_key))
        before.source_versions in
    let (_, e) =
      then-ok
        (reject_if clash integrity_error
          >> guard (is_some (find_source new.source_id before)) integrity_error
          >> guard (refers_to_content new.content_object_id before) integrity_error)
        (ok (record before { source_versions = before.source_versions ++ new ∷ [] })) h in
    ok-injective e
