-- ===== src/Text.antt =====
-- Go's package strings as the program uses it. Case is folded for comparisons with a lower-case
-- ASCII text: besides A to Z, only the code points whose lower case or simple fold is an ASCII
-- letter matter there.
pub mod Decimal
use Prim.Native.Char.{code}
use media_processor.Prelude.{
  ℕ, ◌+◌, Bool, true, false, ◌&&◌, ◌||◌, List, [], ◌∷◌, String, map, leb, ◌==◌, if◌then◌else◌,
}

-- The code points of a text.
abbrev pub codes : String → List ℕ
codes String.[] = []
codes (String.◌∷◌ c s) = code c ∷ codes s

is_upper : ℕ → Bool
is_upper c = leb b'A' c && leb c b'Z'

-- unicode.ToLower: U+0130 and U+212A have the lower case i and k.
unfoldable pub to_lower : ℕ → ℕ
unfolding is_upper
to_lower c = if is_upper c then c + 32 else if c == 304 then 105 else if c == 8490 then 107 else c

-- The simple fold: U+017F and U+212A fold to s and k.
unfoldable pub fold_case : ℕ → ℕ
unfolding is_upper
fold_case c = if is_upper c then c + 32 else if c == 383 then 115 else if c == 8490 then 107 else c

unfoldable pub same_codes : List ℕ → List ℕ → Bool
same_codes [] [] = true
same_codes [] (d ∷ t) = false
same_codes (c ∷ s) [] = false
same_codes (c ∷ s) (d ∷ t) = c == d && same_codes s t

unfoldable pub has_prefix_codes : List ℕ → List ℕ → Bool
has_prefix_codes s [] = true
has_prefix_codes [] (d ∷ t) = false
has_prefix_codes (c ∷ s) (d ∷ t) = c == d && has_prefix_codes s t

unfoldable pub contains_codes : List ℕ → List ℕ → Bool
contains_codes [] t = has_prefix_codes [] t
contains_codes (c ∷ s) t = has_prefix_codes (c ∷ s) t || contains_codes s t

-- strings.ToLower(s) == t.
unfoldable pub lower_is : String → String → Bool
unfolding to_lower same_codes
lower_is s t = same_codes (map to_lower (codes s)) (codes t)

-- strings.Contains(strings.ToLower(s), t).
unfoldable pub lower_contains : String → String → Bool
unfolding to_lower contains_codes has_prefix_codes
lower_contains s t = contains_codes (map to_lower (codes s)) (codes t)

-- strings.EqualFold(s, t).
unfoldable pub equal_fold : String → String → Bool
unfolding fold_case same_codes
equal_fold s t = same_codes (map fold_case (codes s)) (map fold_case (codes t))

-- strings.HasPrefix(s, t).
unfoldable pub has_prefix : String → String → Bool
unfolding has_prefix_codes
has_prefix s t = has_prefix_codes (codes s) (codes t)

-- unicode.IsSpace.
unfoldable pub is_space : ℕ → Bool
is_space c =
    (leb 9 c && leb c 13)
    || (c == 32
        || (c == 0x85
            || (c == 0xA0
                || (c == 0x1680
                    || ((leb 0x2000 c && leb c 0x200A)
                        || (c == 0x2028
                            || (c == 0x2029 || (c == 0x202F || (c == 0x205F || c == 0x3000)))))))))

unfoldable pub trim_left : String → String
trim_left String.[] = String.[]
trim_left (String.◌∷◌ c s) = if is_space (code c) then trim_left s else String.◌∷◌ c s

abbrev is_empty : String → Bool
is_empty String.[] = true
is_empty (String.◌∷◌ c s) = false

unfoldable pub trim_right : String → String
trim_right String.[] = String.[]
trim_right (String.◌∷◌ c s) =
    let rest = trim_right s in
    if is_space (code c) && is_empty rest then String.[] else String.◌∷◌ c rest

-- strings.TrimSpace.
unfoldable pub trim_space : String → String
unfolding is_space trim_left trim_right
trim_space s = trim_right (trim_left s)
