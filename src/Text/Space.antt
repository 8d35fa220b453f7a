-- ===== src/Text/Space.antt =====
-- strings.TrimSpace, strings.ToLower and strings.Split.
pub mod Trimmed
use auctioneer.Base.{
  ℕ, zero, suc, ◌+◌, true, false, ◌&&◌, Option, none, some, List, [], ◌∷◌, map, leb, ◌==◌,
  if◌then◌else◌, length,
}
use mathlib.Core.List
use auctioneer.Text.{Bytes}
use auctioneer.Text.Split.{split_n}

-- The UTF-8 encodings of the characters that `unicode.IsSpace` accepts.
abbrev pub spaces : List Bytes
spaces =
    (9 ∷ [])
    ∷ (10 ∷ [])
    ∷ (11 ∷ [])
    ∷ (12 ∷ [])
    ∷ (13 ∷ [])
    ∷ (32 ∷ [])
    ∷ (194 ∷ 133 ∷ [])
    ∷ (194 ∷ 160 ∷ [])
    ∷ (225 ∷ 154 ∷ 128 ∷ [])
    ∷ (226 ∷ 128 ∷ 128 ∷ [])
    ∷ (226 ∷ 128 ∷ 129 ∷ [])
    ∷ (226 ∷ 128 ∷ 130 ∷ [])
    ∷ (226 ∷ 128 ∷ 131 ∷ [])
    ∷ (226 ∷ 128 ∷ 132 ∷ [])
    ∷ (226 ∷ 128 ∷ 133 ∷ [])
    ∷ (226 ∷ 128 ∷ 134 ∷ [])
    ∷ (226 ∷ 128 ∷ 135 ∷ [])
    ∷ (226 ∷ 128 ∷ 136 ∷ [])
    ∷ (226 ∷ 128 ∷ 137 ∷ [])
    ∷ (226 ∷ 128 ∷ 138 ∷ [])
    ∷ (226 ∷ 128 ∷ 168 ∷ [])
    ∷ (226 ∷ 128 ∷ 169 ∷ [])
    ∷ (226 ∷ 128 ∷ 175 ∷ [])
    ∷ (226 ∷ 129 ∷ 159 ∷ [])
    ∷ (227 ∷ 128 ∷ 128 ∷ [])
    ∷ []

-- What follows the prefix, if the text has it.
unfoldable pub behind_prefix : Bytes → Bytes → Option Bytes
behind_prefix [] s = some s
behind_prefix (c ∷ p) [] = none
behind_prefix (c ∷ p) (d ∷ s) = elim (c == d) [ true ↦ behind_prefix p s | false ↦ none ]

unfoldable pub behind_any : List Bytes → Bytes → Option Bytes
unfolding behind_prefix
behind_any [] s = none
behind_any (p ∷ ps) s = elim (behind_prefix p s) [ none ↦ behind_any ps s | some rest ↦ some rest ]

-- No prefix is empty, so as many rounds as there are bytes are enough.
unfoldable pub trim_prefixes : ℕ → List Bytes → Bytes → Bytes
unfolding behind_any
trim_prefixes zero ps s = s
trim_prefixes (suc f) ps s = elim (behind_any ps s) [
  | none ↦ s
  | some rest ↦ trim_prefixes f ps rest
]

-- An encoding starts with a byte that no other place of an encoding has, so the last character of a
-- text is a space if and only if the text ends with the bytes of one.
unfoldable pub trim_space : Bytes → Bytes
unfolding trim_prefixes
trim_space s =
    let t = trim_prefixes (length s) spaces s in
    List.reverse (trim_prefixes (length t) (map List.reverse spaces) (List.reverse t))

-- strings.ToLower, for ASCII letters. (The only other characters it turns into ASCII letters are
-- U+0130 and U+212A, which become `i` and `k`.)
unfoldable pub to_lower : Bytes → Bytes
to_lower [] = []
to_lower (c ∷ s) = (if leb b'A' c && leb c b'Z' then c + 32 else c) ∷ to_lower s

-- strings.Split at one byte: there are no more separators than bytes.
unfoldable pub split : ℕ → Bytes → List Bytes
split sep s = split_n sep (length s) s
