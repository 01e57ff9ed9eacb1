-- ===== src/Api/Platform.antt =====
-- What the services of apps/api/src use of packages outside the repository, as parameters: the
-- MinIO client, node:path and the calendar; and the settings of apps/api/src/config.ts that they
-- read. Numbers in messages are written in decimal, as a template literal does.
use file_processing_platform.Common.{
  ℕ, zero, suc, ◌+◌, ◌-◌, ◌*◌, ◌/◌, ◌≤◌, ◌<◌, String, Option, List, [], ◌∷◌, arith, ltb, or_else,
  concat, if◌then◌else◌,
}
use file_processing_platform.Common.Lists.{drop, head?}
use Prim.Native.Nat.{◌%◌}

-- minio `PostPolicy`: the values that its setters are given.
pub record PostPolicy : Type 0 where
  pub bucket : String
  pub key : String
  pub expires : ℕ
  pub min_length : ℕ
  pub max_length : ℕ
  pub content_type : String

-- `{ postURL, formData }`
pub record PresignedPost : Type 0 where
  pub post_url : String
  pub form_data : List (String × String)

-- The MinIO client at the time of a call; `none` is a rejected promise.
pub record Storage : Type 0 where
  pub presigned_post_policy : PostPolicy → Option PresignedPost
  -- the size of an object
  pub stat_object : String → String → Option ℕ
  -- the bytes of an object
  pub get_object : String → String → Option String

-- node:path and `Date`
pub record Runtime : Type 0 where
  pub extname : String → String
  pub to_iso_string : ℕ → String

-- `new URL(text)`: the parts that `toPublicStorageUrl` assigns, and the rest.
pub record Url : Type 0 where
  pub protocol : String
  pub hostname : String
  pub port : String
  pub rest : String

pub record UrlParser : Type 0 where
  pub parse : String → Option Url
  pub print : Url → String

-- apps/api/src/config.ts
pub record Config : Type 0 where
  pub max_file_size_bytes : ℕ
  pub presigned_url_ttl_seconds : ℕ
  pub bucket : String
  pub public_url : String

-- `Math.ceil(total / limit)`, for a positive limit
unfoldable pub ceil_div : ℕ → ℕ → ℕ
ceil_div total limit = (total + (limit - 1)) / limit

-- Enough pages and no more: the last page is not empty.
pub ceil_div_bounds :
    (total limit : ℕ)
    → 0 < limit
    → (total ≤ ceil_div total limit * limit) × (ceil_div total limit * limit < total + limit)
unfolding ceil_div
ceil_div_bounds total limit h = omega arith

decimal_digits : ℕ → ℕ → String
decimal_digits zero n = ""
decimal_digits (suc fuel) n =
    let digit =
      or_else
        (head? (drop (n % 10) ("0" ∷ "1" ∷ "2" ∷ "3" ∷ "4" ∷ "5" ∷ "6" ∷ "7" ∷ "8" ∷ "9" ∷ [])))
        "" in
    let more = concat (decimal_digits fuel (n / 10) ∷ digit ∷ []) in
    if ltb n 10 then digit else more

-- `${n}`; a number has at most as many digits as its value and one.
unfoldable pub decimal : ℕ → String
unfolding decimal_digits
decimal n = decimal_digits (suc n) n
