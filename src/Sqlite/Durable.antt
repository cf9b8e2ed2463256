-- ===== src/Sqlite/Durable.antt =====
-- What is synced is read back.
use beskar.Prelude.{String, ◌≡◌, none}
use beskar.Prelude.Result.{ok}
use beskar.Sqlite.{Format, OpenIo}

-- lz4 gives back what it compressed.
abbrev pub IsRoundTrip : Format → Type 0
IsRoundTrip f = (content : String) → f.decompress (f.compress content) ≡ ok content

-- A call that meets no error.
abbrev pub calm_open : OpenIo
calm_open = record {
  stat = none;
  mkdir = none;
  reader = none;
  create = none;
  copy = none;
  close_file = none;
  sql = none;
  migration = none;
}
