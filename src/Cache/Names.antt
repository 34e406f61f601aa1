-- ===== src/Cache/Names.antt =====
-- escapeName and filepath.Join of lru.go: the file that holds a key's object.
pub mod Laws
use azs3_proxy.Prelude.{ℕ, Text, Bool, ◌&&◌, ◌||◌, [], ◌∷◌, ◌++◌, leb, ◌==◌, if◌then◌else◌}

unfoldable pub is_kept : ℕ → Bool
is_kept c =
    (leb b'a' c && leb c b'z')
    || ((leb b'A' c && leb c b'Z') || ((leb b'0' c && leb c b'9') || c == b'.'))

unfoldable pub escape_char : ℕ → ℕ
escape_char c = if is_kept c then c else b'_'

unfoldable pub escape_name : Text → Text
escape_name [] = []
escape_name (c ∷ key) = escape_char c ∷ escape_name key

-- filepath.Join of a clean directory and a name that is not empty, `.` or `..`: the keys of the
-- handler hold a slash, so their escaped names hold an underscore.
unfoldable pub cache_path : Text → Text → Text
cache_path dir key = dir ++ b'/' ∷ escape_name key
