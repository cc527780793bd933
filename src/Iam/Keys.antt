-- ===== src/Iam/Keys.antt =====
-- Scoped API keys (internal/iam/keys.go).
use dilion.Base.{
  ℕ, Bool, false, ◌&&◌, ◌||◌, not, String, ◌==◌, List, [], ◌∷◌, ◌++◌, Option, none, some, any, all,
  find, leb, eqb, delete_where, length, ◌%◌, update_where, contains, ltb, if◌then◌else◌, is_none,
  is_some, not_empty,
}
use dilion.Exec.{Result, ok, err, pure, raise, lift, now, statement, query, exec, ◌>>=◌, ◌>>◌}
use dilion.Iam.Db.{
  Db, M, Error, Deps, ApiKey, Actor, not_found, conflict, invalid, unauthenticated, database,
  resolve_pool, owner_only_permissions, type_api_key,
}
use dilion.Text.Codes.{codes}
use dilion.Iam.Roles.{dedupe, is_empty, known_names, found}

-- `ValidTokenFormat`: the prefix `dk_` and 48 characters that `base64.RawURLEncoding` decodes. It
-- skips line breaks, and a single character is left over only by an incomplete text.
abbrev is_base64 : ℕ → Bool
is_base64 c =
    (leb b'A' c && leb c b'Z')
    || ((leb b'a' c && leb c b'z') || ((leb b'0' c && leb c b'9') || (eqb c b'-' || eqb c b'_')))

abbrev is_break : ℕ → Bool
is_break c = eqb c 10 || eqb c 13

abbrev decodes : List ℕ → Bool
decodes s =
    let digits = delete_where is_break s in all is_base64 digits && not (eqb (length digits % 4) 1)

abbrev is_token : List ℕ → Bool
is_token (a ∷ b ∷ c ∷ rest) =
    (eqb a b'd' && (eqb b b'k' && eqb c b'_')) && (eqb (length rest) 48 && decodes rest)
is_token _ = false

unfoldable pub valid_token_format : String → Bool
unfolding codes
valid_token_format token = is_token (codes token)

-- `expires != nil && !expires.After(now)`.
abbrev pub is_over : ℕ → Option ℕ → Bool
is_over t none = false
is_over t (some e) = not (ltb t e)

-- `APIKey.Active`.
abbrev pub is_active : ℕ → ApiKey → Bool
is_active t k = is_none k.revoked_at && not (is_over t k.expires_at)

-- The loop over the scopes.
abbrev pub scope_allowed : List String → String → Bool
scope_allowed known p = contains known p && not (contains owner_only_permissions p)

-- The insertion; the id and the hash are unique.
abbrev pub insert_key : ApiKey → Db → Db × Result Error ApiKey
insert_key k db =
    if any (λ x. x.id == k.id) db.api_keys
    then (db, err database)
    else if any (λ x. x.key_hash == k.key_hash) db.api_keys
    then (db, err database)
    else (record db { api_keys = db.api_keys ++ k ∷ [] }, ok k)

module _ (deps : Deps) where
  abbrev pub new_key : String → List String → Option ℕ → String → String → ℕ → Db → ApiKey
  new_key name scopes expires by by_type t db = record {
    id = deps.new_key_id db;
    name = not_empty name;
    key_hash = deps.hash_token (deps.new_token db);
    scopes = scopes;
    created_at = t;
    created_by = not_empty by;
    created_by_type = not_empty by_type;
    expires_at = expires;
    revoked_at = none;
    revoked_by = none;
    last_used_at = none;
  }

  -- `createKey` from the lookup of the scopes on.
  unfoldable pub create_scoped : String → List String → Option ℕ → String → String → ℕ → M ApiKey
  create_scoped name scopes expires by by_type t = do
    known ← query database (known_names scopes)
    (if all (scope_allowed known) scopes then pure tt else raise invalid)
    r ← statement database (λ db. insert_key (new_key name scopes expires by by_type t db) db)
    lift r

  -- `CreateKeyBy`, `createKey`. The token itself goes to the caller only.
  unfoldable pub create_key : String → List String → Option ℕ → String → String → M ApiKey
  create_key name scopes expires by by_type = do
    resolve_pool
    (if is_empty (dedupe scopes) then raise invalid else pure tt)
    t ← now
    (if is_over t expires then raise invalid else pure tt)
    create_scoped name (dedupe scopes) expires by by_type t

  -- `VerifyKey` once the key is loaded: the lookup was by the hash, so that the comparison of the
  -- hashes passes.
  unfoldable pub verify_loaded : Option ApiKey → M (Actor × List String)
  verify_loaded none = raise unauthenticated
  verify_loaded (some k) = do
    t ← now
    (if is_some k.revoked_at || is_over t k.expires_at then raise unauthenticated else pure tt)
    exec database (λ db. record db {
      api_keys =
          update_where (λ x. x.id == k.id) (λ x. record x { last_used_at = some t }) db.api_keys;
    })
    pure (record { id = k.id; type = type_api_key }, k.scopes)

  -- `VerifyKey`.
  unfoldable pub verify_key : String → M (Actor × List String)
  verify_key token = do
    resolve_pool
    (if valid_token_format token then pure tt else raise unauthenticated)
    k ← query database (λ db. find (λ x. x.key_hash == deps.hash_token token) db.api_keys)
    verify_loaded k

abbrev pub revocable_key : String → ApiKey → Bool
revocable_key id k = k.id == id && is_none k.revoked_at

abbrev pub revoked_key : String → ℕ → ApiKey → ApiKey
revoked_key by t k = record k { revoked_at = some t; revoked_by = not_empty by }

abbrev revoked_copy : String → ℕ → Option ApiKey → Option ApiKey
revoked_copy by t none = none
revoked_copy by t (some k) = some (revoked_key by t k)

-- `update ... where id = $1 and revoked_at is null returning ...`.
abbrev pub revoke_key_row : String → String → ℕ → Db → Db × Option ApiKey
revoke_key_row id by t db = (
  record db { api_keys = update_where (revocable_key id) (revoked_key by t) db.api_keys },
  revoked_copy by t (find (revocable_key id) db.api_keys),
)

unfoldable pub revoke_key_missing : String → Option ApiKey → M ApiKey
revoke_key_missing id (some k) = pure k
revoke_key_missing id none = do
  exists ← query database (λ db. any (λ k. k.id == id) db.api_keys)
  if exists then raise conflict else raise not_found

-- `RevokeKey`.
unfoldable pub revoke_key : String → String → M ApiKey
revoke_key id by = do
  resolve_pool
  t ← now
  k ← statement database (revoke_key_row id by t)
  revoke_key_missing id k

-- `GetKey`.
unfoldable pub get_key : String → M ApiKey
get_key id = do
  resolve_pool
  k ← query database (λ db. find (λ k. k.id == id) db.api_keys)
  lift (found k)
