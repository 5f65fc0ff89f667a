-- ===== src/Text.antt =====
-- What the program uses of Rust's `str`: trimming, splitting, prefixes, ASCII case, numbers in
-- decimal. A text is a native `String`, a list of Unicode scalar values.
pub mod Prefix
pub mod Parts
pub mod Trimming
pub mod Decimal
use Prim.Native.String
use Prim.Native.String.{char_at}
use netix_republisher.Prelude.{
  Bool, Char, List, Option, String, [], code, false, if◌then◌else◌, leb, nat_eq, none, not, refl,
  some, string_eq, suc, true, zero, ℕ, ◌%◌, ◌&&◌, ◌*◌, ◌++◌, ◌+◌, ◌-◌, ◌/◌, ◌==◌, ◌||◌, ◌∷◌, ◌≡◌,
}

infixr 65 ◌<>◌
-- `format!` joins texts.
abbrev pub ◌<>◌ : String → String → String
s <> t = String.◌++◌ s t

-- `char::is_whitespace`: the code points with the property White_Space.
unfoldable pub is_whitespace : ℕ → Bool
is_whitespace c =
    (leb 9 c && leb c 13)
    || c == 32
    || c == 0x85
    || c == 0xa0
    || c == 0x1680
    || (leb 0x2000 c && leb c 0x200a)
    || c == 0x2028
    || c == 0x2029
    || c == 0x202f
    || c == 0x205f
    || c == 0x3000

unfoldable pub is_empty_text : String → Bool
is_empty_text String.[] = true
is_empty_text (String.◌∷◌ c s) = false

unfoldable pub trim_start : String → String
unfolding is_whitespace
trim_start String.[] = ""
trim_start (String.◌∷◌ c s) =
    let rest = trim_start s in if is_whitespace (code c) then rest else String.◌∷◌ c s

unfoldable pub trim_end : String → String
unfolding is_whitespace is_empty_text
trim_end String.[] = ""
trim_end (String.◌∷◌ c s) =
    let rest = trim_end s in
    if is_empty_text rest && is_whitespace (code c) then "" else String.◌∷◌ c rest

-- `str::trim`
unfoldable pub trim : String → String
unfolding trim_start trim_end
trim s = trim_end (trim_start s)

-- The first part of a split grows by a character.
abbrev pub onto_first : Char → List String → List String
onto_first c [] = String.◌∷◌ c "" ∷ []
onto_first c (p ∷ ps) = String.◌∷◌ c p ∷ ps

-- `str::split` at a character, given by its code; there is always a first part.
unfoldable pub split : ℕ → String → List String
split sep String.[] = "" ∷ []
split sep (String.◌∷◌ c s) =
    let rest = split sep s in if code c == sep then "" ∷ rest else onto_first c rest

abbrev pub onto_left : Char → Option (String × String) → Option (String × String)
onto_left c none = none
onto_left c (some (a, b)) = some (String.◌∷◌ c a, b)

-- `str::split_once`: at the first occurrence.
unfoldable pub split_once : ℕ → String → Option (String × String)
split_once sep String.[] = none
split_once sep (String.◌∷◌ c s) =
    let rest = split_once sep s in if code c == sep then some ("", s) else onto_left c rest

unfoldable pub strip_prefix : String → String → Option String
strip_prefix String.[] s = some s
strip_prefix (String.◌∷◌ d p) String.[] = none
strip_prefix (String.◌∷◌ d p) (String.◌∷◌ c s) =
    let rest = strip_prefix p s in if code d == code c then rest else none

unfoldable pub to_ascii_lower : Char → Char
to_ascii_lower c =
    if leb b'A' (code c) && leb (code c) b'Z'
    then char_at "abcdefghijklmnopqrstuvwxyz" (code c - b'A')
    else c

unfoldable pub to_ascii_lowercase : String → String
unfolding to_ascii_lower
to_ascii_lowercase String.[] = ""
to_ascii_lowercase (String.◌∷◌ c s) = String.◌∷◌ (to_ascii_lower c) (to_ascii_lowercase s)

-- `str::eq_ignore_ascii_case`
unfoldable pub eq_ignore_ascii_case : String → String → Bool
unfolding to_ascii_lowercase
eq_ignore_ascii_case s t = to_ascii_lowercase s == to_ascii_lowercase t

-- `[_]::join`
unfoldable pub join : String → List String → String
join sep [] = ""
join sep (p ∷ []) = p
join sep (p ∷ q ∷ ps) = p <> sep <> join sep (q ∷ ps)

-- The value that decimal digits spell behind `n`; nothing else may stand among them.
unfoldable pub scan_digits : String → ℕ → Option ℕ
scan_digits String.[] n = some n
scan_digits (String.◌∷◌ c s) n =
    let rest = scan_digits s (n * 10 + (code c - b'0')) in
    if leb b'0' (code c) && leb (code c) b'9' then rest else none

abbrev pub at_most : ℕ → Option ℕ → Option ℕ
at_most most none = none
at_most most (some n) = if leb n most then some n else none

-- `parse` at an unsigned type: an optional `+`, at least one digit, no value above the maximum.
unfoldable pub parse_unsigned : ℕ → String → Option ℕ
unfolding scan_digits is_empty_text
parse_unsigned most String.[] = none
parse_unsigned most (String.◌∷◌ c s) =
    let digits = if code c == b'+' && not (is_empty_text s) then s else String.◌∷◌ c s in
    at_most most (scan_digits digits 0)

pub digit : ℕ → Char
digit n = char_at "0123456789" n

-- A number in decimal, as `Display` prints it. Each round takes a digit off, so `suc n` rounds do.
unfoldable pub decimal_from : ℕ → ℕ → String → String
unfolding digit
decimal_from zero n out = out
decimal_from (suc fuel) n out =
    let longer = String.◌∷◌ (digit (n % 10)) out in
    let rest = decimal_from fuel (n / 10) longer in if n / 10 == 0 then longer else rest

unfoldable pub decimal : ℕ → String
unfolding decimal_from
decimal n = decimal_from (suc n) n ""

trims : (trim " \t a b\n" ≡ "a b") × (trim "  " ≡ "")
unfolding trim
trims = (refl, refl)

splits : (split b';' "a=b; c" ≡ "a=b" ∷ " c" ∷ []) × (split_once b'=' "a=b=c" ≡ some ("a", "b=c"))
unfolding split split_once
splits = (refl, refl)

numbers :
    (decimal 10700 ≡ "10700")
    × (decimal 0 ≡ "0")
    × (parse_unsigned 65535 "+47808" ≡ some 47808)
    × (parse_unsigned 65535 "65536" ≡ none)
    × (parse_unsigned 9 "+" ≡ none)
unfolding decimal parse_unsigned
numbers = (refl, refl, refl, refl, refl)

cases : (to_ascii_lowercase "YeS-1" ≡ "yes-1") × (strip_prefix "ab" "abc" ≡ some "c")
unfolding to_ascii_lowercase strip_prefix
cases = (refl, refl)
