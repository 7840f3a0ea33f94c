-- ===== src/Tests/Packages.antt =====
-- The theorem on loaded migrations, for a directory of two files.
use codex_research_skill.Base.{◌≡◌, refl, none, some, List, [], ◌∷◌, ok, err, Result}
use codex_research_skill.Text.{Text, codes, same, starts_with, ends_with}
use codex_research_skill.Text.Spaces.{strip, before}
use codex_research_skill.Migration.Packages.{SqlMigration, MigrationError, Bytes, Codecs}
use codex_research_skill.Migration.Packages.Checksum.{frames}
use codex_research_skill.Migration.Packages.Framing.{Same, frames-injective}
use codex_research_skill.Migration.Packages.Load.{Entry, file, special, load_sql_migrations}
use codex_research_skill.Migration.Packages.Order.{Ascending, load_sql_migrations-Ascending}

abbrev plain : Codecs
plain = record {
  decode = λ content. some content;
  encode = λ text. text;
  parse_json = λ text. none;
  digest = λ content. content;
}

abbrev directory_entries : List Entry
directory_entries =
    file (codes "02.sql") (codes "b")
    ∷ special (codes "link")
    ∷ file (codes "01.sql") (codes "a")
    ∷ []

abbrev loaded_of : Result MigrationError (List SqlMigration) → List SqlMigration
loaded_of (ok loaded) = loaded
loaded_of (err _) = []

abbrev two_files : List SqlMigration
two_files = loaded_of (load_sql_migrations plain directory_entries)

two_files-ok : load_sql_migrations plain directory_entries ≡ ok two_files
unfolding load_sql_migrations same strip before starts_with ends_with
two_files-ok = refl

load_sql_migrations-Ascending_example : Ascending two_files
load_sql_migrations-Ascending_example =
    load_sql_migrations-Ascending plain directory_entries two_files two_files-ok

abbrev from_windows : List (Text × Bytes)
from_windows = (codes "a", 13 ∷ 10 ∷ []) ∷ []

abbrev from_unix : List (Text × Bytes)
from_unix = (codes "a", 10 ∷ []) ∷ []

abbrev framed_bytes : Bytes
framed_bytes = 0 ∷ 0 ∷ 0 ∷ 1 ∷ 97 ∷ 0 ∷ 0 ∷ 0 ∷ 0 ∷ 0 ∷ 0 ∷ 0 ∷ 1 ∷ 10 ∷ []

from_windows-framed : frames plain from_windows ≡ ok framed_bytes
unfolding frames
from_windows-framed = refl

from_unix-framed : frames plain from_unix ≡ ok framed_bytes
unfolding frames
from_unix-framed = refl

frames-injective_example : Same plain from_windows from_unix
frames-injective_example =
    frames-injective plain from_windows from_unix framed_bytes refl from_windows-framed
      from_unix-framed
