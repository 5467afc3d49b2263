-- ===== src/Prelude/Text.antt =====
-- The text methods of Python that the program calls, over the characters of a native text:
-- `strip`, `split`, `isdigit`, `int` and `str` of a number. `isdigit` and `int` are modelled for the
-- ASCII digits.
use Prim.Native.Nat.{ℕ, zero, suc, ◌+◌, ◌-◌, ◌*◌, ◌/◌, ◌%◌}
use Prim.Native.Char.{code}
use Prim.Native.String
use Prim.Native.String.{String}
use mathlib.Core.Bool.{Bool, true, false, not, ◌&&◌, ◌||◌}
use mathlib.Core.List.{List, [], ◌∷◌}
use mathlib.Core.Option.{Option, none, some}
use turning_good_agent.Prelude.Lists.{keep}
use turning_good_agent.Prelude.Tests.{leb, ltb, nat_beq, if◌then◌else◌}

-- `s + t`
unfoldable pub append_text : String → String → String
append_text s t = String.◌++◌ s t

-- `str.isspace` of one character.
abbrev pub is_space : ℕ → Bool
is_space c =
    (leb 9 c && leb c 13)
    || (leb 28 c && leb c 32)
    || nat_beq c 133
    || nat_beq c 160
    || nat_beq c 5760
    || (leb 8192 c && leb c 8202)
    || (leb 8232 c && leb c 8233)
    || nat_beq c 8239
    || nat_beq c 8287
    || nat_beq c 12288

-- `s.lstrip()`
unfoldable pub lstrip : String → String
lstrip String.[] = String.[]
lstrip (String.◌∷◌ c s) = let rest = lstrip s in if is_space (code c) then rest else String.◌∷◌ c s

-- Whether a text is empty, which is what `not s` tests.
unfoldable pub is_empty : String → Bool
is_empty String.[] = true
is_empty (String.◌∷◌ c s) = false

-- `s.rstrip()`: a character goes if it is a space and nothing stays behind it.
unfoldable pub rstrip : String → String
unfolding is_empty
rstrip String.[] = String.[]
rstrip (String.◌∷◌ c s) =
    let rest = rstrip s in
    if is_space (code c) && is_empty rest then String.[] else String.◌∷◌ c rest

-- `s.strip()`
unfoldable pub strip : String → String
unfolding lstrip rstrip
strip s = lstrip (rstrip s)

abbrev pub digit_text : ℕ → String
digit_text n =
    if nat_beq n 0
    then "0"
    else if nat_beq n 1
    then "1"
    else if nat_beq n 2
    then "2"
    else if nat_beq n 3
    then "3"
    else if nat_beq n 4
    then "4"
    else if nat_beq n 5
    then "5"
    else if nat_beq n 6
    then "6"
    else if nat_beq n 7
    then "7"
    else if nat_beq n 8
    then "8"
    else "9"

unfoldable pub show_with : ℕ → ℕ → String
show_with zero n = ""
show_with (suc fuel) n =
    let front = show_with fuel (n / 10) in
    if ltb n 10 then digit_text n else append_text front (digit_text (n % 10))

-- `str(n)`: a number has fewer digits than its successor counts.
unfoldable pub show : ℕ → String
show n = show_with (suc n) n

-- The first piece and the others, as a scan from the right finds them.
abbrev pub pieces : (ℕ → Bool) → String → String × List String
pieces is_separator String.[] = ("", [])
pieces is_separator (String.◌∷◌ c s) =
    let (piece, rest) = pieces is_separator s in
    if is_separator (code c) then ("", piece ∷ rest) else (String.◌∷◌ c piece, rest)

-- `s.split(sep)` for a separator of one character.
unfoldable pub split_on : ℕ → String → List String
split_on separator s = let (piece, rest) = pieces (nat_beq separator) s in piece ∷ rest

-- `s.split()`
unfoldable pub split_words : String → List String
split_words s =
    let (piece, rest) = pieces is_space s in keep (λ word. not (is_empty word)) (piece ∷ rest)

-- `s.split(sep, 1)` for a separator of one character: the texts before and behind the first one,
-- none if it is not in `s`.
unfoldable pub split_once : ℕ → String → Option (String × String)
split_once separator String.[] = none
split_once separator (String.◌∷◌ c s) =
    let rest = split_once separator s in
    if nat_beq (code c) separator
    then some ("", s)
    else elim rest [ none ↦ none | some parts ↦ some (String.◌∷◌ c parts.0, parts.1) ]

abbrev pub is_digit : ℕ → Bool
is_digit c = leb 48 c && leb c 57

abbrev pub all_digits : String → Bool
all_digits String.[] = true
all_digits (String.◌∷◌ c s) = is_digit (code c) && all_digits s

-- `s.isdigit()` on ASCII digits.
unfoldable pub isdigit : String → Bool
isdigit s = not (is_empty s) && all_digits s

abbrev pub int_from : ℕ → String → ℕ
int_from n String.[] = n
int_from n (String.◌∷◌ c s) = int_from (n * 10 + (code c - 48)) s

-- `int(s)` of a text of ASCII digits.
unfoldable pub int_of : String → ℕ
int_of s = int_from 0 s

-- `len(s)`
unfoldable pub text_length : String → ℕ
text_length String.[] = 0
text_length (String.◌∷◌ c s) = suc (text_length s)

-- `s[:n]`
unfoldable pub take_text : ℕ → String → String
take_text zero s = ""
take_text (suc n) String.[] = ""
take_text (suc n) (String.◌∷◌ c s) = String.◌∷◌ c (take_text n s)

-- Whether the code of some character passes a test.
unfoldable pub any_char : (ℕ → Bool) → String → Bool
any_char p String.[] = false
any_char p (String.◌∷◌ c s) = p (code c) || any_char p s
