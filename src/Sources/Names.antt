-- ===== src/Sources/Names.antt =====
-- internal/sources/names.go: names and modes of a source.
use sub_share_go.Common.{
  ℕ, [], ◌∷◌, ◌++◌, Bool, true, false, ltb, leb, length, ◌||◌, if◌then◌else◌, text, ◌==◌, ◌-◌,
}
use sub_share_go.Common.Result.{Result, err, ok}
use sub_share_go.Strings.{Text, Unicode, codes, trim_space, to_lower, is_empty}
use sub_share_go.Strings.Bytes.{cut}

pub data NameError : Type 0 where
  name_required name_not_utf8 name_too_long : NameError

-- `utf8.ValidString`: no stray byte
unfoldable pub valid_utf8 : Text → Bool
valid_utf8 [] = true
valid_utf8 (c ∷ s) = if ltb c 0x110000 then valid_utf8 s else false

-- `ValidateName`
unfoldable pub validate_name : Text → Result NameError Text
validate_name raw =
    let name = trim_space raw in
    if is_empty name
    then err name_required
    else if valid_utf8 name
    then (if ltb 64 (length name) then err name_too_long else ok name)
    else err name_not_utf8

-- `s[:n]` on the runes
unfoldable pub take_runes : ℕ → Text → Text
take_runes n [] = []
take_runes n (c ∷ s) = let rest = take_runes (n - 1) s in if leb 1 n then c ∷ rest else []

unfoldable pub normalize_remote_name : Text → Text × Bool
normalize_remote_name raw =
    let name = trim_space raw in
    if leb (length name) 64 then (name, false) else (take_runes 63 name ++ 0x2026 ∷ [], true)

unfoldable pub normalize_category : Text → Text
normalize_category raw =
    let value = trim_space raw in if is_empty value then codes "Общее" else cut 24 value

unfoldable pub normalize_key_insert_mode : ⦃u : Unicode⦄ → Text → Text
normalize_key_insert_mode raw =
    let value = to_lower (trim_space raw) in
    if value == codes "top" || value == codes "bottom" then value else codes "bottom"
