-- ===== src/Terminal/Command/Parser.antt =====
-- softmodem-terminal/src/command.rs: `Parser` and the small steps it is made of. Its position in the text
-- is the text that is left, since it only moves on.
pub mod Yields
use softmodem_rs.Prelude.{
  ℕ, zero, suc, ◌+◌, ◌-◌, ◌*◌, Bool, true, false, not, ◌&&◌, ◌||◌, Option, none, some, List, [],
  ◌∷◌, ◌==◌, ltb, leb, if◌then◌else◌,
}
use softmodem_rs.Prelude.Result.{Result, ok, err}

pub data ParseError : Type 0 where
  parse_error : ParseError

-- The value, and the text that is left.
abbrev pub Parser : Type 0 → Type 0
Parser A = List ℕ → Result ParseError (A × List ℕ)

abbrev pub and_then :
    {A B : Type 0}
    → Result ParseError (A × List ℕ)
    → (A → Parser B)
    → Result ParseError (B × List ℕ)
and_then (ok (a, rest)) f = f a rest
and_then (err e) f = err e

infixl 5 ◌>>=◌
unfoldable pub ◌>>=◌ : {A B : Type 0} → Parser A → (A → Parser B) → Parser B
(m >>= f) text = and_then (m text) f

unfoldable pub give : {A : Type 0} → A → Parser A
give a text = ok (a, text)

unfoldable pub fail : {A : Type 0} → Parser A
fail text = err parse_error

unfoldable pub next : Parser (Option ℕ)
next [] = ok (none, [])
next (byte ∷ rest) = ok (some byte, rest)

abbrev first : List ℕ → Option ℕ
first [] = none
first (byte ∷ rest) = some byte

unfoldable pub peek : Parser (Option ℕ)
peek text = ok (first text, text)

-- `self.at += 1`, where a byte is there.
unfoldable pub skip : Parser (Option ℕ)
unfolding next
skip text = next text

-- `Some(byte)`
abbrev pub is_byte : Option ℕ → ℕ → Bool
is_byte none byte = false
is_byte (some b) byte = b == byte

abbrev pub is_digit : ℕ → Bool
is_digit b = leb b'0' b && leb b b'9'

abbrev pub is_alphabetic : ℕ → Bool
is_alphabetic b = (leb b'A' b && leb b b'Z') || (leb b'a' b && leb b b'z')

abbrev pub is_alphanumeric : ℕ → Bool
is_alphanumeric b = is_digit b || is_alphabetic b

abbrev pub extend : ℕ → List ℕ × List ℕ → List ℕ × List ℕ
extend b (taken, rest) = (b ∷ taken, rest)

-- The loops `while self.peek().is_some_and(test)`: what they pass over, and what is left.
unfoldable pub span : (ℕ → Bool) → List ℕ → List ℕ × List ℕ
span test [] = ([], [])
span test (b ∷ text) = let more = span test text in if test b then extend b more else ([], b ∷ text)

unfoldable pub take_while : (ℕ → Bool) → Parser (List ℕ)
unfolding span
take_while test text = ok (span test text)

-- The number that digits write.
unfoldable pub number_from : ℕ → List ℕ → ℕ
number_from value [] = value
number_from value (d ∷ digits) = number_from (value * 10 + (d - b'0')) digits

-- `parse`, for a type whose largest value is `most`.
abbrev pub checked : ℕ → List ℕ → Parser (Option ℕ)
checked most [] = give none
checked most (d ∷ digits) =
    let value = number_from 0 (d ∷ digits) in if ltb most value then fail else give (some value)

unfoldable pub number : ℕ → Parser (Option ℕ)
number most = do digits ← take_while is_digit; checked most digits

abbrev pub u8_max : ℕ
u8_max = 255

abbrev pub u16_max : ℕ
u16_max = 65535

abbrev pub i32_max : ℕ
i32_max = 2147483647

abbrev pub u32_max : ℕ
u32_max = 4294967295

abbrev pub unwrap_or {ℓ} : {A : Type ℓ} → Option A → A → A
unwrap_or none d = d
unwrap_or (some a) d = a

abbrev at_most : ℕ → ℕ → Parser ℕ
at_most max' value = if ltb max' value then fail else give value

unfoldable pub value : ℕ → Parser ℕ
value max' = do number ← number u8_max; at_most max' (unwrap_or number 0)
