-- ===== src/Base/Text.antt =====
-- The string operations of Python that the program uses, on the code points of a text.
use Prim.Native.Nat.{ℕ, suc, ◌/◌, ◌%◌}
use Prim.Native.Char.{code}
use Prim.Native.String.{String, ◌++◌ as ◌+++◌}
use text.Mathlib.Text.{starts_with}
use mathlib.Core.Bool.{Bool, false, ◌&&◌, ◌||◌}
use mathlib.Core.List.{List, [], ◌∷◌}
use reg_agent_ops.Base.Tests.{leb, eqb, if◌then◌else◌}
use reg_agent_ops.Base.Lists.{all, length}

unfoldable pub codes : String → List ℕ
codes String.[] = []
codes (String.◌∷◌ c s) = code c ∷ codes s

-- `str.isspace` of one character: the code points that `str.strip` removes
unfoldable pub is_space : ℕ → Bool
is_space c =
    (leb 9 c && leb c 13)
    || (leb 28 c && leb c 32)
    || eqb c 133
    || eqb c 160
    || eqb c 5760
    || (leb 8192 c && leb c 8202)
    || eqb c 8232
    || eqb c 8233
    || eqb c 8239
    || eqb c 8287
    || eqb c 12288

-- `not value.strip()`
unfoldable pub is_blank : String → Bool
unfolding codes is_space
is_blank s = all is_space (codes s)

-- `len(value)`
unfoldable pub len : String → ℕ
unfolding codes
len s = length (codes s)

-- `value.endswith("Z")`
unfoldable pub ends_with_z : String → Bool
ends_with_z String.[] = false
ends_with_z (String.◌∷◌ c String.[]) = eqb (code c) b'Z'
ends_with_z (String.◌∷◌ c (String.◌∷◌ d s)) = ends_with_z (String.◌∷◌ d s)

-- `value[:-1]`
unfoldable pub drop_last : String → String
drop_last String.[] = String.[]
drop_last (String.◌∷◌ c String.[]) = String.[]
drop_last (String.◌∷◌ c (String.◌∷◌ d s)) = String.◌∷◌ c (drop_last (String.◌∷◌ d s))

-- `"=" in value`
unfoldable pub contains_code : ℕ → String → Bool
contains_code k String.[] = false
contains_code k (String.◌∷◌ c s) = eqb (code c) k || contains_code k s

-- `value[:n]`
unfoldable pub take_text : ℕ → String → String
take_text ℕ.zero s = String.[]
take_text (suc n) String.[] = String.[]
take_text (suc n) (String.◌∷◌ c s) = String.◌∷◌ c (take_text n s)

-- `value.rstrip(b"=")`
abbrev cons_unless_bare : ℕ → String → String → String
cons_unless_bare k String.[] s = if eqb k b'=' then String.[] else s
cons_unless_bare k (String.◌∷◌ d r) s = s

unfoldable pub strip_equals : String → String
strip_equals String.[] = String.[]
strip_equals (String.◌∷◌ c s) =
    let rest = strip_equals s in cons_unless_bare (code c) rest (String.◌∷◌ c rest)

-- `value.replace("+00:00", "Z")`; the number says how many characters of a found text are left
unfoldable pub replace_skip : ℕ → String → String
replace_skip n String.[] = String.[]
replace_skip (suc n) (String.◌∷◌ c s) = replace_skip n s
replace_skip ℕ.zero (String.◌∷◌ c s) =
    let found = "Z" +++ replace_skip 5 s in
    let kept = String.◌∷◌ c (replace_skip 0 s) in
    if starts_with (String.◌∷◌ c s) "+00:00" then found else kept

unfoldable pub utc_suffix : String → String
unfolding replace_skip
utc_suffix s = replace_skip 0 s

unfoldable pub is_hex : ℕ → Bool
is_hex c = (leb b'0' c && leb c b'9') || (leb b'a' c && leb c b'f')

-- `re.compile(r"^[0-9a-f]{64}$").fullmatch(value)`
unfoldable pub is_hex_64 : String → Bool
unfolding codes is_hex
is_hex_64 s = eqb (length (codes s)) 64 && all is_hex (codes s)

abbrev digit : ℕ → String
digit n =
    if eqb n 0
    then "0"
    else if eqb n 1
    then "1"
    else if eqb n 2
    then "2"
    else if eqb n 3
    then "3"
    else if eqb n 4
    then "4"
    else if eqb n 5
    then "5"
    else if eqb n 6
    then "6"
    else if eqb n 7
    then "7"
    else if eqb n 8
    then "8"
    else "9"

-- the digits of a number below 10 ^ fuel, the leading zeros left out
decimal_digits : ℕ → ℕ → String
decimal_digits ℕ.zero n = ""
decimal_digits (suc fuel) n =
    let high = decimal_digits fuel (n / 10) in
    if eqb (n / 10) 0 then digit (n % 10) else high +++ digit (n % 10)

-- `str(n)`; a number has at most as many digits as its value, plus one
unfoldable pub decimal : ℕ → String
unfolding decimal_digits
decimal n = decimal_digits (suc n) n
