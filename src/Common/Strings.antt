-- ===== src/Common/Strings.antt =====
-- What the program uses of Go's package `strings`, over code points. A string is valid UTF-8.
-- `to_lower` folds the ASCII letters and leaves every other code point as it is.
use Prim.Native.Nat.{ℕ, zero, suc, ◌+◌, ◌-◌}
use mathlib.Core.Bool.{Bool, true, false, ◌&&◌, ◌||◌}
use mathlib.Core.Option.{Option, none, some}
use mathlib.Core.List.{List, [], ◌∷◌, ◌++◌, reverse}
use lite_api.Common.Tests.{ltb, leb, nat_beq, if◌then◌else◌, Text, text_beq, ◌==◌, nat_eq, text_eq}
use lite_api.Common.Lists.{length, any}

-- `len`: the bytes of the UTF-8 encoding.
abbrev pub rune_len : ℕ → ℕ
rune_len c = if ltb c 0x80 then 1 else if ltb c 0x800 then 2 else if ltb c 0x10000 then 3 else 4

abbrev pub byte_len : Text → ℕ
byte_len [] = 0
byte_len (c ∷ s) = rune_len c + byte_len s

-- `unicode.IsSpace`.
unfoldable pub is_space : ℕ → Bool
is_space c =
    (leb 9 c && leb c 13)
    || c == 32
    || c == 0x85
    || c == 0xa0
    || c == 0x1680
    || (leb 0x2000 c && leb c 0x200a)
    || c == 0x2028
    || c == 0x2029
    || c == 0x202f
    || c == 0x205f
    || c == 0x3000

pub trim_left : Text → Text
trim_left [] = []
trim_left (c ∷ s) = if is_space c then trim_left s else c ∷ s

-- `strings.TrimSpace`.
unfoldable pub trim_space : Text → Text
unfolding trim_left is_space
trim_space s = reverse (trim_left (reverse (trim_left s)))

unfoldable pub lower_rune : ℕ → ℕ
lower_rune c = if leb b'A' c && leb c b'Z' then c + 32 else c

-- `strings.ToLower`.
unfoldable pub to_lower : Text → Text
unfolding lower_rune
to_lower [] = []
to_lower (c ∷ s) = lower_rune c ∷ to_lower s

-- `strings.HasPrefix`, with its arguments in that order.
unfoldable pub has_prefix : Text → Text → Bool
has_prefix s [] = true
has_prefix [] (p ∷ ps) = false
has_prefix (c ∷ s) (p ∷ ps) = nat_beq c p && has_prefix s ps

drop_runes : ℕ → Text → Text
drop_runes zero t = t
drop_runes (suc n) [] = []
drop_runes (suc n) (c ∷ t) = drop_runes n t

-- `strings.TrimPrefix`.
unfoldable pub trim_prefix : Text → Text → Text
unfolding has_prefix drop_runes
trim_prefix s p = if has_prefix s p then drop_runes (length p) s else s

-- `strings.HasSuffix`.
unfoldable pub has_suffix : Text → Text → Bool
unfolding has_prefix
has_suffix s p = has_prefix (reverse s) (reverse p)

-- `strings.TrimSuffix(s, "*")`.
unfoldable pub trim_star : Text → Text
trim_star [] = []
trim_star (c ∷ []) = if c == b'*' then [] else c ∷ []
trim_star (c ∷ d ∷ s) = c ∷ trim_star (d ∷ s)

-- `strings.HasSuffix(s, "*")`.
unfoldable pub ends_in_star : Text → Bool
ends_in_star [] = false
ends_in_star (c ∷ []) = c == b'*'
ends_in_star (c ∷ d ∷ s) = ends_in_star (d ∷ s)

-- `strings.ContainsRune`.
abbrev pub has_rune : Text → ℕ → Bool
has_rune s r = any (λ c. c == r) s

-- `strings.Contains`.
unfoldable pub has_substring : Text → Text → Bool
unfolding has_prefix
has_substring [] p = has_prefix [] p
has_substring (c ∷ s) p = has_prefix (c ∷ s) p || has_substring s p

-- `strings.EqualFold` on ASCII.
unfoldable pub equal_fold : Text → Text → Bool
unfolding to_lower text_beq
equal_fold s t = to_lower s == to_lower t

-- `strings.Cut(s, "/")`.
unfoldable pub cut_slash : Text → Option (Text × Text)
cut_slash [] = none
cut_slash (c ∷ s) =
    if c == b'/'
    then some ([], s)
    else elim (cut_slash s) [ none ↦ none | some (head, tail) ↦ some (c ∷ head, tail) ]

-- `strings.FieldsFunc`: `field` is the field that is being read, backwards.
unfoldable pub fields_from : (ℕ → Bool) → Text → Text → List Text
fields_from is_separator [] [] = []
fields_from is_separator (x ∷ field) [] = reverse (x ∷ field) ∷ []
fields_from is_separator [] (c ∷ s) =
    fields_from is_separator (if is_separator c then [] else c ∷ []) s
fields_from is_separator (x ∷ field) (c ∷ s) =
    let rest = fields_from is_separator (if is_separator c then [] else c ∷ x ∷ field) s in
    if is_separator c then reverse (x ∷ field) ∷ rest else rest

abbrev pub fields_func : (ℕ → Bool) → Text → List Text
fields_func is_separator s = fields_from is_separator [] s

-- The last element of a slice, if it has one.
unfoldable pub last_field : List Text → Option Text
last_field [] = none
last_field (s ∷ []) = some s
last_field (s ∷ t ∷ rest) = last_field (t ∷ rest)

-- `strings.TrimSuffix`.
unfoldable pub trim_suffix : Text → Text → Text
unfolding trim_prefix
trim_suffix s p = reverse (trim_prefix (reverse s) (reverse p))

-- What follows the last `/`, or the whole text.
unfoldable pub after_last_slash : Text → Text → Text
after_last_slash tail [] = tail
after_last_slash tail (c ∷ s) = after_last_slash (if c == b'/' then s else tail) s

-- `strings.Join`.
unfoldable pub join : Text → List Text → Text
join separator [] = []
join separator (s ∷ []) = s
join separator (s ∷ t ∷ rest) = s ++ separator ++ join separator (t ∷ rest)

-- `strings.NewReplacer`: at each place the first pair that matches is used.
unfoldable pub find_pair : List (Text × Text) → Text → Option (Text × Text)
find_pair [] s = none
find_pair ((old, new) ∷ pairs) s = if has_prefix s old then some (old, new) else find_pair pairs s

-- The replacing proper; `skip` runes belong to the text that was replaced last.
unfoldable pub replace_from : List (Text × Text) → ℕ → Text → Text
replace_from pairs skip [] = []
replace_from pairs (suc skip) (c ∷ s) = replace_from pairs skip s
replace_from pairs zero (c ∷ s) = elim (find_pair pairs (c ∷ s)) [
  | none ↦ c ∷ replace_from pairs 0 s
  | some (old, new) ↦ new ++ replace_from pairs (length old - 1) s
]
