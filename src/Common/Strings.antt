-- ===== src/Common/Strings.antt =====
-- The functions of Go's package strings, and the decimal verb of package fmt.
use mathlib.Core.Logic.{◌≢◌}
use Prim.Native.Nat.{ℕ, zero, suc, ◌+◌, ◌-◌, ◌/◌, ◌%◌}
use Prim.Native.Char.{Char, code, len_utf8}
use Prim.Native.String.{String, count, ◌++◌ as ◌<>◌}
use native.Mathlib.Omega.{arith}
use mathlib.Core.Bool.{true, false, Bool, ◌&&◌, ◌||◌}
use mathlib.Core.List.{List, [], ◌∷◌}
use text.Mathlib.Text.{◌==◌}
use nacho_operators.Common.Tests.{ltb, leb, nat_eq, if◌then◌else◌}
use nacho_operators.Common.Int.{ℤ, pos, negsuc}

-- `strings.HasSuffix`
unfoldable pub has_suffix : String → String → Bool
has_suffix String.[] t = t == ""
has_suffix (String.◌∷◌ c s) t = (String.◌∷◌ c s) == t || has_suffix s t

-- `unicode.IsSpace`
unfoldable pub is_space : Char → Bool
is_space ch =
    let c = code ch in
    (leb 9 c && leb c 13)
    || nat_eq c 32
    || nat_eq c 0x85
    || nat_eq c 0xA0
    || nat_eq c 0x1680
    || (leb 0x2000 c && leb c 0x200A)
    || nat_eq c 0x2028
    || nat_eq c 0x2029
    || nat_eq c 0x202F
    || nat_eq c 0x205F
    || nat_eq c 0x3000

unfoldable pub trim_left : String → String
trim_left String.[] = ""
trim_left (String.◌∷◌ c s) = let rest = trim_left s in if is_space c then rest else String.◌∷◌ c s

unfoldable pub trim_right : String → String
trim_right String.[] = ""
trim_right (String.◌∷◌ c s) =
    let rest = trim_right s in if is_space c && rest == "" then "" else String.◌∷◌ c rest

-- `strings.TrimSpace`
unfoldable pub trim_space : String → String
trim_space s = trim_left (trim_right s)

-- `strings.Join`
unfoldable pub join : List String → String → String
join [] sep = ""
join (s ∷ []) sep = s
join (s ∷ t ∷ rest) sep = s <> sep <> join (t ∷ rest) sep

unfoldable pub has_prefix : String → String → Bool
has_prefix s String.[] = true
has_prefix String.[] (String.◌∷◌ d t) = false
has_prefix (String.◌∷◌ c s) (String.◌∷◌ d t) = nat_eq (code c) (code d) && has_prefix s t

-- `strings.Contains`
unfoldable pub has_infix : String → String → Bool
has_infix String.[] t = t == ""
has_infix (String.◌∷◌ c s) t = has_prefix (String.◌∷◌ c s) t || has_infix s t

-- `strings.ReplaceAll` of a text of one character, which is given by its code
unfoldable pub replace_char : ℕ → String → String → String
replace_char old new String.[] = ""
replace_char old new (String.◌∷◌ c s) =
    let rest = replace_char old new s in
    if nat_eq (code c) old then new <> rest else String.◌∷◌ c rest

-- `s[:n]`, less the bytes of a character that would be cut
unfoldable pub take_bytes : ℕ → String → String
take_bytes n String.[] = ""
take_bytes n (String.◌∷◌ c s) =
    let rest = take_bytes (n - len_utf8 c) s in if leb (len_utf8 c) n then String.◌∷◌ c rest else ""

abbrev spaces : ℕ → String
spaces zero = ""
spaces (suc n) = " " <> spaces n

-- The verb `%-ns`
unfoldable pub pad_right : ℕ → String → String
pad_right n s = s <> spaces (n - count s)

abbrev push_char : Char → List String → List String
push_char c [] = String.◌∷◌ c "" ∷ []
push_char c (part ∷ parts) = String.◌∷◌ c part ∷ parts

-- `strings.Split` at a separator of one character, which is given by its code
unfoldable pub split_at_char : ℕ → String → List String
split_at_char sep String.[] = "" ∷ []
split_at_char sep (String.◌∷◌ c s) =
    let parts = split_at_char sep s in if nat_eq (code c) sep then "" ∷ parts else push_char c parts

push_char-nonempty : (c : Char) (parts : List String) → push_char c parts ≢ []
push_char-nonempty c [] e = cc
push_char-nonempty c (part ∷ parts) e = cc

pub split_at_char-nonempty : (sep : ℕ) (s : String) → split_at_char sep s ≢ []
unfolding split_at_char
split_at_char-nonempty sep String.[] e = cc
split_at_char-nonempty sep (String.◌∷◌ c s) e =
    ground (arith, push_char-nonempty c (split_at_char sep s))

abbrev letter_at : ℕ → String → String
letter_at n String.[] = ""
letter_at zero (String.◌∷◌ c s) = String.◌∷◌ c ""
letter_at (suc n) (String.◌∷◌ c s) = letter_at n s

-- `strings.ToLower`, for the letters of ASCII; other characters stay as they are.
unfoldable pub to_lower : String → String
to_lower String.[] = ""
to_lower (String.◌∷◌ c s) =
    let rest = to_lower s in
    if leb 65 (code c) && leb (code c) 90
    then letter_at (code c - 65) "abcdefghijklmnopqrstuvwxyz" <> rest
    else String.◌∷◌ c rest

abbrev pub digit : ℕ → String
digit n =
    if nat_eq n 0
    then "0"
    else if nat_eq n 1
    then "1"
    else if nat_eq n 2
    then "2"
    else if nat_eq n 3
    then "3"
    else if nat_eq n 4
    then "4"
    else if nat_eq n 5
    then "5"
    else if nat_eq n 6
    then "6"
    else if nat_eq n 7
    then "7"
    else if nat_eq n 8
    then "8"
    else "9"

-- The fuel is the number itself and one more; each digit uses one unit.
unfoldable pub decimal_from : ℕ → ℕ → String
decimal_from zero n = ""
decimal_from (suc f) n =
    let front = decimal_from f (n / 10) in if ltb n 10 then digit n else front <> digit (n % 10)

-- `%d`
unfoldable pub decimal : ℤ → String
unfolding decimal_from
decimal (pos n) = decimal_from (n + 1) n
decimal (negsuc n) = "-" <> decimal_from (n + 2) (n + 1)
