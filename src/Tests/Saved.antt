-- ===== src/Tests/Saved.antt =====
-- Tests of the records on disk.
use ender.Prelude.{some, lit, text_eq, ◌≡◌, refl}
use ender.Records.{current_version}

project_version : current_version (lit "project") ≡ some 1
unfolding current_version text_eq lit
project_version = refl
