-- ===== src/Dashboard/Auth.antt =====
-- src/dashboard_api/auth.py: the bearer token. The token of the environment is an argument, and an exception is
-- the text that it carries.
pub mod Gate
use Prim.Native.String.{◌++◌}
use hta.Common.{String, Bool, true, false, Option, none, some, same, if◌then◌else◌}
use hta.Strings.{after_prefix, is_empty_text}

-- `get_expected_token` on `os.environ.get(ENV_VAR, "")`
unfoldable pub get_expected_token : Option String → String
get_expected_token none = ""
get_expected_token (some token) = token

-- `constant_time_match`: the digests are equal just when the texts are.
unfoldable pub constant_time_match : String → String → Bool
constant_time_match provided expected =
    if is_empty_text expected then false else same provided expected

-- `validate_token_or_raise`
unfoldable pub validate_token_or_raise : Option String → Option String → Option String
unfolding constant_time_match get_expected_token
validate_token_or_raise env none = some "invalid or missing token"
validate_token_or_raise env (some provided) =
    if constant_time_match provided (get_expected_token env)
    then none
    else some "invalid or missing token"

-- The token of the header, where it has the prefix.
unfoldable pub bearer_token : Option String → Option String
unfolding after_prefix
bearer_token none = none
bearer_token (some authorization) = after_prefix "Bearer " authorization

-- `require_token`, by the detail of its 401.
unfoldable pub require_token : Option String → Option String → Option String
unfolding bearer_token constant_time_match get_expected_token
require_token env authorization = elim (bearer_token authorization) [
  | none ↦ some "missing bearer token"
  | some token ↦
      if constant_time_match token (get_expected_token env)
      then none
      else some "invalid bearer token"
]
