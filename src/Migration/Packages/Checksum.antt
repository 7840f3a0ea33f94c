-- ===== src/Migration/Packages/Checksum.antt =====
-- migration_runner.py, _bundle_checksum.
use codex_research_skill.Base.{
  ℕ, zero, suc, ◌&&◌, List, [], ◌∷◌, ◌++◌, length, ltb, ◌==◌, if◌then◌else◌, Result, ok, err, ◌>>=◌,
}
use Prim.Native.Nat.{◌/◌, ◌%◌, ◌^◌}
use codex_research_skill.Text.{Text, codes}
use codex_research_skill.Migration.Packages.{
  MigrationError, undecodable, overflow, Bytes, Codecs, or_raise,
}

-- `text.replace("\r\n", "\n").replace("\r", "\n")`
unfoldable pub unix_lines : Text → Text
unix_lines [] = []
unix_lines (c ∷ []) = if c == 13 then 10 ∷ [] else c ∷ []
unix_lines (c ∷ d ∷ rest) =
    let both = 10 ∷ unix_lines rest in
    let other = unix_lines (d ∷ rest) in
    if c == 13 && d == 10 then both else if c == 13 then 10 ∷ other else c ∷ other

-- `n.to_bytes(width, byteorder="big")`
unfoldable pub to_bytes : ℕ → ℕ → Bytes
to_bytes zero n = []
to_bytes (suc width) n = to_bytes width (n / 256) ++ n % 256 ∷ []

-- its `OverflowError`
abbrev pub sized : ℕ → Bytes → Result MigrationError Bytes
sized width content =
    if ltb (length content) (256 ^ width)
    then ok (to_bytes width (length content) ++ content)
    else err overflow

-- What `_bundle_checksum` feeds to the digest after its label: for each component its name and its
-- content, each after its length.
unfoldable pub frames : Codecs → List (Text × Bytes) → Result MigrationError Bytes
unfolding unix_lines to_bytes
frames io [] = ok []
frames io ((name, raw) ∷ components) = or_raise (io.decode raw) (undecodable name) >>= λ decoded.
    sized 4 (io.encode name) >>= λ header. sized 8 (io.encode (unix_lines decoded)) >>= λ content.
    frames io components >>= λ rest. ok (header ++ (content ++ rest))

-- `_bundle_checksum`
unfoldable pub bundle_checksum : Codecs → List (Text × Bytes) → Result MigrationError Text
unfolding frames
bundle_checksum io components = frames io components >>= λ framed.
    ok (io.digest (codes "research-registry-logical-migration-v1" ++ 0 ∷ framed))
