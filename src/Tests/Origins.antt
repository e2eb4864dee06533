-- ===== src/Tests/Origins.antt =====
-- Tests of the rules of access.
use ender.Prelude.{true, [], Option, some, Text, lit, ◌≡◌, refl}
use ender.Access.{ApiAccess, permits_origin}
use ender.Access.Names.{permits_origin_by_prefix}

abbrev local_access : ApiAccess
local_access = record { mode = lit "local"; cors_origins = [] }

abbrev one_host : Text → Option Text
one_host s = some (lit "127.evil.example")

permits_origin_by_prefix_example :
    permits_origin one_host local_access (some (lit "http://127.evil.example")) ≡ true
unfolding lit
permits_origin_by_prefix_example =
    permits_origin_by_prefix one_host local_access 104 (lit "ttp://127.evil.example")
      (lit "evil.example") refl refl
