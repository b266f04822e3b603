-- ===== src/Auth/Texts.antt =====
-- What services/auth-service/app does to texts: `strip` and `lower` of normalize_email (routes.py)
-- on ASCII, the first part of a header, and the cut of a user agent (audit.py).

use Prim.Native.Char.{Char, code}
use Prim.Native.String.{String, [], ◌∷◌, char_at}
use market_place_app.Prelude.{
  ℕ, zero, suc, ◌-◌, Bool, true, false, ◌&&◌, ◌||◌, leb, ◌==◌, if◌then◌else◌,
}

-- `isspace()`, of ASCII
abbrev is_space : Char → Bool
is_space c = leb 9 (code c) && leb (code c) 13 || leb 28 (code c) && leb (code c) 32

abbrev is_empty : String → Bool
is_empty [] = true
is_empty (c ∷ s) = false

unfoldable pub left_stripped : String → String
left_stripped [] = []
left_stripped (c ∷ s) = let rest = left_stripped s in if is_space c then rest else c ∷ s

unfoldable pub right_stripped : String → String
right_stripped [] = []
right_stripped (c ∷ s) =
    let rest = right_stripped s in if is_space c && is_empty rest then [] else c ∷ rest

-- `strip()`
unfoldable pub strip : String → String
unfolding left_stripped right_stripped
strip s = left_stripped (right_stripped s)

abbrev lower_letter : Char → Char
lower_letter c =
    if leb 65 (code c) && leb (code c) 90
    then char_at "abcdefghijklmnopqrstuvwxyz" (code c - 65)
    else c

-- `lower()`, of the letters A to Z
unfoldable pub lower : String → String
lower [] = []
lower (c ∷ s) = lower_letter c ∷ lower s

-- `split(",")[0]`
unfoldable pub before_comma : String → String
before_comma [] = []
before_comma (c ∷ s) = let rest = before_comma s in if code c == 44 then [] else c ∷ rest

-- `text[:n]`
unfoldable pub first_letters : ℕ → String → String
first_letters zero s = []
first_letters (suc n) [] = []
first_letters (suc n) (c ∷ s) = c ∷ first_letters n s
