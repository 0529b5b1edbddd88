-- ===== src/Util.antt =====
-- util/util.go
pub mod Tokens
pub mod Clock
pub mod Expiry
pub mod Decimal
pub mod Files
pub mod Request
pub mod Examples
use cube_apiserver.Prelude.{Str, Bool, true, false, List, [], ◌∷◌, ◌==◌, if◌then◌else◌}
use cube_apiserver.Base.Text.{split}

-- ContainsString
unfoldable pub contains_string : List Str → Str → Bool
contains_string [] item = false
contains_string (j ∷ slice) item = if j == item then true else contains_string slice item

abbrev first_part : List Str → Str
first_part [] = []
first_part (p ∷ ps) = p

-- GetAuthProviderName: `parts[0]`, which is there, since Split returns at least one part.
unfoldable pub get_auth_provider_name : Str → Str
get_auth_provider_name principal_id = first_part (split b'.' principal_id)

-- A token value that has not exactly two parts keeps the first and no key.
abbrev token_parts : List Str → Str × Str
token_parts [] = ([], [])
token_parts (name ∷ key ∷ []) = (name, key)
token_parts (name ∷ _) = (name, [])

-- SplitTokenParts
unfoldable pub split_token_parts : Str → Str × Str
split_token_parts token_id = token_parts (split b':' token_id)
