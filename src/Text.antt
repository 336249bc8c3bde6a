-- ===== src/Text.antt =====
-- The functions of the C library that rd/flask_engine.c and rd/file_loader.c call on texts. A char
-- array is the list of its bytes; `none` is a read or a write past its end.
pub mod Tokens
pub mod Decimal
use Prim.Native.Char.{code}
use Prim.Native.String.{String}
use p.Prelude.{
  ℕ, zero, suc, ◌+◌, ◌-◌, ◌*◌, ◌/◌, ◌%◌, ◌^◌, Bool, ◌&&◌, ◌||◌, List, [], ◌∷◌, ◌++◌, Option, none,
  some, ◌==◌, leb, ltb, if◌then◌else◌, length, take, drop, CString, ◌>>=◌, ◌>>◌, defined,
}

-- The bytes of a text in ASCII.
abbrev pub codes : String → CString
codes String.[] = []
codes (String.◌∷◌ c s) = code c ∷ codes s

-- `memset(…, 0, n)`
unfoldable pub zeros : ℕ → List ℕ
zeros zero = []
zeros (suc n) = 0 ∷ zeros n

-- `memcpy` to the start of an array.
unfoldable pub overwrite : List ℕ → List ℕ → Option (List ℕ)
overwrite dst bytes = do
  defined (leb (length bytes) (length dst))
  some (bytes ++ drop (length bytes) dst)

-- What an array reads as, up to the first NUL.
unfoldable pub c_str : List ℕ → Option CString
c_str [] = none
c_str (b ∷ bs) = if b == 0 then some [] else (do rest ← c_str bs; some (b ∷ rest))

-- `strcpy`, and `sprintf` of the text `s`.
unfoldable pub strcpy : List ℕ → CString → Option (List ℕ)
unfolding overwrite
strcpy dst s = overwrite dst (s ++ 0 ∷ [])

-- `strncpy` writes `n` bytes: the text, cut or filled up with NULs. What follows them stays.
unfoldable pub strncpy_to : List ℕ → CString → ℕ → Option (List ℕ)
strncpy_to dst s n = do
  defined (leb n (length dst))
  some (take n s ++ (zeros (n - length s) ++ drop n dst))

unfoldable pub spaces : List ℕ → ℕ
spaces [] = 0
spaces (c ∷ cs) = if c == b' ' then suc (spaces cs) else 0

-- The bytes before a space or a NUL.
unfoldable pub word : List ℕ → CString
word [] = []
word (c ∷ cs) = if c == b' ' || c == 0 then [] else c ∷ word cs

-- An array that `strtok` walks: the bytes that it has passed, and those from its pointer on.
pub record Scanner : Type 0 where
  pub passed : List ℕ
  pub rest : List ℕ

abbrev pub scanning : List ℕ → Scanner
scanning bytes = record { passed = []; rest = bytes }

-- A null pointer where no byte is left for a token.
abbrev pub token_of : CString → Option CString
token_of [] = none
token_of (c ∷ cs) = some (c ∷ cs)

-- The scanner behind a token, from what it has passed and what follows the token; a NUL is written
-- over a space.
unfoldable pub split_token : List ℕ → CString → List ℕ → Option (Option CString × Scanner)
split_token passed token [] = none
split_token passed token (c ∷ more) =
    if c == 0
    then some (token_of token, record { passed = passed; rest = c ∷ more })
    else some (some token, record { passed = passed ++ 0 ∷ []; rest = more })

-- The length of the spaces and of the token behind them.
unfoldable pub reach : List ℕ → ℕ
reach bytes = spaces bytes + length (word (drop (spaces bytes) bytes))

-- `strtok(…, " ")`
unfoldable pub strtok : Scanner → Option (Option CString × Scanner)
strtok s =
    split_token (s.passed ++ take (reach s.rest) s.rest) (word (drop (spaces s.rest) s.rest))
      (drop (reach s.rest) s.rest)

unfoldable pub is_digit : ℕ → Bool
is_digit c = leb b'0' c && leb c b'9'

-- `isspace`
unfoldable pub is_white : ℕ → Bool
is_white c = c == b' ' || (leb 9 c && leb c 13)

unfoldable pub skip_white : CString → CString
unfolding is_white
skip_white [] = []
skip_white (c ∷ cs) = if is_white c then skip_white cs else c ∷ cs

unfoldable pub digits_value : CString → ℕ → ℕ
unfolding is_digit
digits_value [] n = n
digits_value (c ∷ cs) n =
    let rest = digits_value cs (n * 10 + (c - b'0')) in if is_digit c then rest else n

-- `atoi`; a value that an `int` does not hold is undefined behaviour.
unfoldable pub signed_value : CString → Option ℕ
unfolding digits_value
signed_value [] = some 0
signed_value (c ∷ cs) =
    if c == b'-'
    then (do
      defined (leb (digits_value cs 0) (2 ^ 31))
      some ((2 ^ 32 - digits_value cs 0) % 2 ^ 32))
    else let n = digits_value (if c == b'+' then cs else c ∷ cs) 0 in
      (do defined (ltb n (2 ^ 31)); some n)

unfoldable pub atoi : CString → Option ℕ
unfolding skip_white signed_value
atoi s = signed_value (skip_white s)

-- The decimal digits of a number below `10 ^ k`, with `k` first.
unfoldable pub digits : ℕ → ℕ → CString
digits zero n = []
digits (suc k) n =
    let rest = digits k (n / 10) in (if n / 10 == 0 then [] else rest) ++ (b'0' + n % 10) ∷ []

-- What `%d` prints.
unfoldable pub decimal : ℕ → CString
unfolding digits
decimal n = if ltb n (2 ^ 31) then digits 10 n else b'-' ∷ digits 10 (2 ^ 32 - n)
