-- ===== src/Khqr.antt =====
-- app/services/khqr.py: the payload of a payment QR. A text is the list of its code points, the
-- moment `now_ms` is `int(time.time() * 1000)`.
pub mod Build
pub mod Rounds
pub mod Parse
pub mod Ends
pub mod Crc
pub mod Expiry
pub mod TooLong
use ebdental_api.Prelude.{
  Text, ℕ, zero, suc, ◌+◌, ◌-◌, ◌*◌, ◌/◌, ◌%◌, Bool, true, false, not, ◌&&◌, ◌||◌, Option, none,
  some, List, [], ◌∷◌, ◌++◌, ltb, leb, ◌==◌, if◌then◌else◌, text_eq, length, take, drop, any,
  value_or, keep_if,
}
use ebdental_api.Prelude.Int.{ℤ, pos, negsuc, ◌+ℤ◌}
use ebdental_api.Catalog.{Money}
use ebdental_api.Numerals.{str_nat, two_digits, python_int, is_digit, strip}
use Prim.Native.Nat.{bit_and, bit_xor}

-- The settings that the builders read: app/config.py, and for the last three the site settings.
pub record Settings : Type 0 where
  pub account_id : Text
  pub account_information : Text
  pub acquiring_bank : Text
  pub static_template : Text
  pub merchant_name : Text
  pub merchant_city : Text
  pub expiry_minutes : ℕ

-- f"{tag}{len(value):02d}{value}"
unfoldable pub tlv : Text → Text → Text
unfolding two_digits
tlv tag value = tag ++ (two_digits (length value) ++ value)

-- `data.encode("utf-8")`
abbrev pub utf8_char : ℕ → List ℕ
utf8_char c =
    if ltb c 0x80
    then c ∷ []
    else (if ltb c 0x800
        then (0xc0 + c / 0x40) ∷ (0x80 + c % 0x40) ∷ []
        else (if ltb c 0x10000
            then (0xe0 + c / 0x1000) ∷ (0x80 + c / 0x40 % 0x40) ∷ (0x80 + c % 0x40) ∷ []
            else (0xf0 + c / 0x40000)
              ∷ (0x80 + c / 0x1000 % 0x40)
              ∷ (0x80 + c / 0x40 % 0x40)
              ∷ (0x80 + c % 0x40)
              ∷ []))

unfoldable pub utf8 : Text → List ℕ
utf8 [] = []
utf8 (c ∷ s) = utf8_char c ++ utf8 s

-- One of the eight rounds on a byte.
unfoldable pub crc_round : ℕ → ℕ
crc_round crc = (if bit_and crc 0x8000 == 0 then crc * 2 else bit_xor (crc * 2) 0x1021) % 0x10000

unfoldable pub crc_rounds : ℕ → ℕ → ℕ
unfolding crc_round
crc_rounds zero crc = crc
crc_rounds (suc n) crc = crc_rounds n (crc_round crc)

unfoldable pub crc_bytes : ℕ → List ℕ → ℕ
crc_bytes crc [] = crc
crc_bytes crc (byte ∷ rest) = crc_bytes (crc_rounds 8 (bit_xor crc (byte * 256))) rest

abbrev pub hex_digit : ℕ → ℕ
hex_digit n = if ltb n 10 then b'0' + n else b'A' + (n - 10)

-- f"{crc:04X}", of a number of 16 bits.
abbrev pub hex4 : ℕ → Text
hex4 n =
    hex_digit (n / 4096)
    ∷ hex_digit (n / 256 % 16)
    ∷ hex_digit (n / 16 % 16)
    ∷ hex_digit (n % 16)
    ∷ []

unfoldable pub crc16_ccitt : Text → Text
unfolding crc_bytes utf8
crc16_ccitt s = hex4 (crc_bytes 0xffff (utf8 s))

-- A slice bound, counted from the end where it is negative.
abbrev pub clip : ℕ → ℤ → ℕ
clip n (pos k) = if ltb n k then n else k
clip n (negsuc k) = n - (k + 1)

-- s[lo:hi]
unfoldable pub slice : ℤ → ℤ → Text → Text
slice lo hi s = take (clip (length s) hi - clip (length s) lo) (drop (clip (length s) lo) s)

-- i <= n
abbrev pub at_most : ℤ → ℕ → Bool
at_most (pos k) n = leb k n
at_most (negsuc k) n = true

-- What the loop of `_parse_tlv` comes to. `stuck` is no value of Python's: the rounds given were not
-- enough.
pub data Parsed : Type 0 where
  fields : List (Text × Text) → Parsed
  value_error : Parsed
  stuck : Parsed

abbrev pub prepend : Text × Text → Parsed → Parsed
prepend f (fields fs) = fields (f ∷ fs)
prepend f value_error = value_error
prepend f stuck = stuck

unfoldable pub parse_loop : ℕ → Text → ℤ → Parsed
parse_loop zero payload i = stuck
parse_loop (suc rounds) payload i = elim (at_most (i +ℤ pos 4) (length payload)) [
  | false ↦ fields []
  | true ↦ elim (python_int (slice (i +ℤ pos 2) (i +ℤ pos 4) payload)) [
    | none ↦ value_error
    | some n ↦
        prepend (slice i (i +ℤ pos 2) payload, slice (i +ℤ pos 4) (i +ℤ pos 4 +ℤ n) payload)
          (parse_loop rounds payload (i +ℤ pos 4 +ℤ n))
  ]
]

-- A round takes four characters at least unless it goes back, so that so many rounds are enough.
unfoldable pub parse_tlv : Text → Parsed
unfolding parse_loop
parse_tlv payload = parse_loop (suc (length payload)) payload (pos 0)

-- `dict(fields).get(tag)`: the last field of a tag counts.
unfoldable pub field_of : Text → List (Text × Text) → Option Text
field_of tag [] = none
field_of tag ((t, v) ∷ fs) = elim (field_of tag fs) [
  | some later ↦ some later
  | none ↦ if text_eq t tag then some v else none
]
