-- ===== src/ApiKeys.antt =====
-- The api_keys package: src/uptime_platform/api_keys/{entities,in_memory_repository,service}.py.
-- Generating, hashing and cutting a key are parameters.
use text.Mathlib.Text.{◌==◌ as str_eq}
use uptime_platform.Base.{
  ℕ, String, Bool, true, false, Option, none, some, List, leb, ◌==◌, if◌then◌else◌, is_none, filter,
  find?,
}
use uptime_platform.Base.Sort.{sort}
use uptime_platform.Base.Dict
use uptime_platform.Base.Dict.{Dict, values}

pub record ApiKey : Type 0 where
  pub id : ℕ
  pub organization_id : ℕ
  pub name : String
  pub key_hash : String
  pub key_prefix : String
  pub created_at : ℕ
  pub last_used_at : Option ℕ

unfoldable pub create : Dict ApiKey → ApiKey → Dict ApiKey
create r api_key = Dict.put r api_key.id api_key

abbrev in_organization : ℕ → Option ApiKey → Option ApiKey
in_organization organization_id none = none
in_organization organization_id (some k) =
    if k.organization_id == organization_id then some k else none

unfoldable pub get_by_id : Dict ApiKey → (api_key_id organization_id : ℕ) → Option ApiKey
get_by_id r api_key_id organization_id = in_organization organization_id (Dict.get r api_key_id)

unfoldable pub get_by_hash : Dict ApiKey → String → Option ApiKey
get_by_hash r key_hash = find? (λ k. str_eq k.key_hash key_hash) (values r)

unfoldable pub get_all : Dict ApiKey → ℕ → List ApiKey
get_all r organization_id =
    sort (λ a b. leb a.created_at b.created_at)
      (filter (λ k. k.organization_id == organization_id) (values r))

unfoldable pub delete : Dict ApiKey → (api_key_id organization_id : ℕ) → Dict ApiKey × Bool
unfolding get_by_id
delete r api_key_id organization_id =
    if is_none (get_by_id r api_key_id organization_id)
    then (r, false)
    else (Dict.del r api_key_id, true)

abbrev used : Dict ApiKey → ℕ → ℕ → Option ApiKey → Dict ApiKey × Bool
used r api_key_id last_used_at none = (r, false)
used r api_key_id last_used_at (some k) =
    (Dict.put r api_key_id (record k { last_used_at = some last_used_at }), true)

unfoldable pub update_last_used : Dict ApiKey → (api_key_id last_used_at : ℕ) → Dict ApiKey × Bool
update_last_used r api_key_id last_used_at = used r api_key_id last_used_at (Dict.get r api_key_id)

-- ApiKeyService.create: `hash` is `hash_api_key` under the secret and `prefix` is
-- `get_api_key_prefix`; the plain key, the identifier and the instant come from outside.
unfoldable pub create_key :
    (hash prefix : String → String)
    → Dict ApiKey
    → (organization_id : ℕ) (name plaintext_key : String) (uuid4 now : ℕ) → Dict ApiKey × ApiKey
create_key hash prefix r organization_id name plaintext_key uuid4 now =
    let api_key : ApiKey = record {
      id = uuid4;
      organization_id = organization_id;
      name = name;
      key_hash = hash plaintext_key;
      key_prefix = prefix plaintext_key;
      created_at = now;
      last_used_at = none;
    } in
    (create r api_key, api_key)
