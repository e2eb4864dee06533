-- ===== src/Access/Names.antt =====
-- Host names that src/api/access.js takes for addresses of this machine.
use ender.Prelude.{
  true, ◌∷◌, ◌++◌, Option, some, Text, lit, trim, trim_start, trim_end, is_space, lower, text_eq,
  text_eq_refl, ℕ, ◌≡◌, refl, arith,
}
use ender.Access.{
  ApiAccess, is_loopback_address, is_loopback_host, is_loopback_origin, permits_origin,
}

loopback_prefix : (s : Text) → is_loopback_address (lit "127." ++ s) ≡ true
unfolding is_loopback_address trim trim_start trim_end is_space lower lit text_eq
loopback_prefix s = refl

-- In local mode every origin whose host name starts with `127.`, whatever follows, is permitted.
pub permits_origin_by_prefix :
    (host_of : Text → Option Text) (a : ApiAccess) (c : ℕ) (origin s : Text)
    → a.mode ≡ lit "local"
    → host_of (c ∷ origin) ≡ some (lit "127." ++ s)
    → permits_origin host_of a (some (c ∷ origin)) ≡ true
unfolding permits_origin is_loopback_origin
permits_origin_by_prefix host_of a c origin s local h =
    let by_mode : text_eq a.mode (lit "local") ≡ true = rw local (text_eq_refl (lit "local")) in
    let by_host : is_loopback_host (host_of (c ∷ origin)) ≡ true = rw h (loopback_prefix s) in
    ground arith
