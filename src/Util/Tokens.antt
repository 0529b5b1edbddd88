-- ===== src/Util/Tokens.antt =====
-- Token values, `name:key`.
use cube_apiserver.Prelude.{Str, ◌≡◌, ◌∷◌, ◌++◌, arith}
use cube_apiserver.Base.Text.{Free, split-Free, split-append}
use cube_apiserver.Util.{split_token_parts}

-- A name and a key without a colon, joined by one, are split into the two again.
pub split_token_parts-join :
    (name key : Str)
    → Free b':' name
    → Free b':' key
    → split_token_parts (name ++ b':' ∷ key) ≡ (name, key)
unfolding split_token_parts
split_token_parts-join name key hn hk =
    ground (arith, split-append b':' name key hn, split-Free b':' key hk)
