-- ===== src/Auth/Keys.antt =====
-- How old the keys are that src/beacon/auth.js checks a signature with.
use ender.Prelude.{
  ℕ, ◌-◌, ◌<◌, true, false, List, [], ◌∷◌, Option, none, some, Text, if-holds, ◌⊎◌, inl, inr, ◌≡◌,
  ◌∙◌, refl, arith,
}
use mathlib.Core.Path.{subst}
use ender.Json.{Json}
use ender.Auth.{
  Result, ok, throws, Cache, Fetched, failed, refused, body, keys_in, stored, fetched, get_from,
  get_keys, is_fresh, is_some_key,
}

-- A fetch that gave these keys.
abbrev pub Gives : Fetched → List Json → Type 0
Gives (body j) keys = keys_in j ≡ ok keys
Gives f keys = ⊥

abbrev pub Any {ℓ} : {A : Type ℓ} → (A → Type 0) → List A → Type 0
Any P [] = ⊥
Any P (x ∷ xs) = P x ⊎ Any P xs

Any-imp {ℓ} :
    {A : Type ℓ} (P Q : A → Type 0) (xs : List A) → ((x : A) → P x → Q x) → Any P xs → Any Q xs
Any-imp P Q [] f h = h
Any-imp P Q (x ∷ xs) f (inl p) = inl (f x p)
Any-imp P Q (x ∷ xs) f (inr h) = inr (Any-imp P Q xs f h)

-- Calls of `getKeys`, each with its time and what a fetch would give; the last one stands first.
unfoldable pub get_all : List (ℕ × Fetched) → Cache → Cache
unfolding get_keys
get_all [] c = c
get_all ((now, f) ∷ past) c = (get_keys now f (get_all past c)).0

-- The keys that are held came with a fetch at the time that is held.
abbrev IsHeld : List (ℕ × Fetched) → Cache → Type 0
IsHeld past c =
    (is_some_key c.keys ≡ false)
    ⊎ Any (λ (e : ℕ × Fetched). (e.0 ≡ c.cached_at) × Gives (e.1) c.keys) past

-- Keys that are used: just fetched, or fetched by a call that is not longer ago than the time to live.
abbrev pub AreRecent : ℕ → Fetched → ℕ → List (ℕ × Fetched) → List Json → Type 0
AreRecent now f ttl past keys =
    Gives f keys ⊎ Any (λ (e : ℕ × Fetched). (now - e.0 < ttl) × Gives (e.1) keys) past

later-IsHeld :
    (past : List (ℕ × Fetched)) (e : ℕ × Fetched) (c : Cache) → IsHeld past c → IsHeld (e ∷ past) c
later-IsHeld past e c (inl h) = inl h
later-IsHeld past e c (inr h) = inr (inr h)

fetched-IsHeld :
    (past : List (ℕ × Fetched)) (now : ℕ) (f : Fetched) (c : Cache)
    → IsHeld past c
    → IsHeld ((now, f) ∷ past) ((fetched now c f).0)
fetched-IsHeld past now (failed m) c h = later-IsHeld past (now, failed m) c h
fetched-IsHeld past now (refused s) c h = later-IsHeld past (now, refused s) c h
fetched-IsHeld past now (body j) c h = by_keys (keys_in j) refl
  where
    by_keys :
        (r : Result (List Json))
        → keys_in j ≡ r
        → IsHeld ((now, body j) ∷ past) ((stored now c r).0)
    by_keys (ok keys) e = inr (inl (refl, e))
    by_keys (throws m) e = later-IsHeld past (now, body j) c h

get_keys-IsHeld :
    (past : List (ℕ × Fetched)) (now : ℕ) (f : Fetched) (c : Cache)
    → IsHeld past c
    → IsHeld ((now, f) ∷ past) ((get_keys now f c).0)
unfolding get_keys
get_keys-IsHeld past now f c h = by_uri c.jwks_uri
  where
    by_uri : (o : Option Text) → IsHeld ((now, f) ∷ past) ((get_from now f c o).0)
    by_uri none = later-IsHeld past (now, f) c h
    by_uri (some uri) =
        if-holds (λ (x : Cache × Result (List Json)). IsHeld ((now, f) ∷ past) (x.0))
          (is_fresh now c) (c, ok c.keys) (fetched now c f) (λ _. later-IsHeld past (now, f) c h)
          (λ _. fetched-IsHeld past now f c h)

get_all-IsHeld :
    (past : List (ℕ × Fetched)) (c : Cache)
    → is_some_key c.keys ≡ false
    → IsHeld past (get_all past c)
unfolding get_all
get_all-IsHeld [] c h = inl h
get_all-IsHeld ((now, f) ∷ past) c h =
    get_keys-IsHeld past now f (get_all past c) (get_all-IsHeld past c h)

fetched-Gives :
    (now : ℕ) (f : Fetched) (c : Cache) {keys : List Json}
    → (fetched now c f).1 ≡ ok keys
    → Gives f keys
fetched-Gives now (failed m) c h = cc h
fetched-Gives now (refused s) c h = cc h
fetched-Gives now (body j) c {keys} h = by_keys (keys_in j) refl h
  where
    by_keys :
        (r : Result (List Json))
        → keys_in j ≡ r
        → (stored now c r).1 ≡ ok keys
        → keys_in j ≡ ok keys
    by_keys (ok ks) e k = e ∙ k
    by_keys (throws m) e k = cc k

fresh-AreRecent :
    (past : List (ℕ × Fetched)) (now : ℕ) (f : Fetched) (c : Cache) {keys : List Json}
    → IsHeld past c
    → is_fresh now c ≡ true
    → c.keys ≡ keys
    → AreRecent now f c.ttl_ms past keys
fresh-AreRecent past now f c (inl n) s e = ground arith
fresh-AreRecent past now f c {keys} (inr h) s e = inr (
    Any-imp (λ x. (x.0 ≡ c.cached_at) × Gives (x.1) c.keys)
      (λ x. (now - x.0 < c.ttl_ms) × Gives (x.1) keys) past
      (λ x (t, g). (ground arith, subst (Gives (x.1)) e g)) h)

fetched-ttl : (now : ℕ) (f : Fetched) (c : Cache) → (fetched now c f).0.ttl_ms ≡ c.ttl_ms
fetched-ttl now (failed m) c = refl
fetched-ttl now (refused s) c = refl
fetched-ttl now (body j) c = by_keys (keys_in j)
  where
    by_keys : (r : Result (List Json)) → (stored now c r).0.ttl_ms ≡ c.ttl_ms
    by_keys (ok keys) = refl
    by_keys (throws m) = refl

get_keys-ttl : (now : ℕ) (f : Fetched) (c : Cache) → (get_keys now f c).0.ttl_ms ≡ c.ttl_ms
unfolding get_keys
get_keys-ttl now f c = by_uri c.jwks_uri
  where
    by_uri : (o : Option Text) → (get_from now f c o).0.ttl_ms ≡ c.ttl_ms
    by_uri none = refl
    by_uri (some uri) =
        if-holds (λ (x : Cache × Result (List Json)). x.0.ttl_ms ≡ c.ttl_ms) (is_fresh now c)
          (c, ok c.keys) (fetched now c f) (λ _. refl) (λ _. fetched-ttl now f c)

get_all-ttl : (past : List (ℕ × Fetched)) (c : Cache) → (get_all past c).ttl_ms ≡ c.ttl_ms
unfolding get_all
get_all-ttl [] c = refl
get_all-ttl ((now, f) ∷ past) c = get_keys-ttl now f (get_all past c) ∙ get_all-ttl past c

-- However often the keys were asked for before, the keys that are used came with a fetch of this call,
-- or with one that is less than the time to live ago.
pub get_keys-AreRecent :
    (past : List (ℕ × Fetched)) (now : ℕ) (f : Fetched) (c : Cache) (keys : List Json)
    → is_some_key c.keys ≡ false
    → (get_keys now f (get_all past c)).1 ≡ ok keys
    → AreRecent now f c.ttl_ms past keys
unfolding get_keys
get_keys-AreRecent past now f c keys s h =
    subst (λ n. AreRecent now f n past keys) (get_all-ttl past c) (by_uri x.jwks_uri h)
  where
    x : Cache
    x = get_all past c

    by_uri :
        (o : Option Text) → (get_from now f x o).1 ≡ ok keys → AreRecent now f x.ttl_ms past keys
    by_uri none k = cc k
    by_uri (some uri) k =
        if-holds
          (λ (y : Cache × Result (List Json)). y.1 ≡ ok keys → AreRecent now f x.ttl_ms past keys)
          (is_fresh now x) (x, ok x.keys) (fetched now x f)
          (λ b e. fresh-AreRecent past now f x (get_all-IsHeld past c s) b (cc e))
          (λ _ e. inl (fetched-Gives now f x e)) k
