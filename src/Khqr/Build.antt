-- ===== src/Khqr/Build.antt =====
-- The builders of app/services/khqr.py, and the test for an expired payload.
use ebdental_api.Prelude.{
  Text, ℕ, ◌+◌, ◌*◌, ◌/◌, ◌%◌, Bool, true, false, not, ◌&&◌, ◌||◌, Option, none, some, List, [],
  ◌∷◌, ◌++◌, ltb, leb, ◌==◌, if◌then◌else◌, text_eq, take, value_or, any,
}
use ebdental_api.Prelude.Int.{ℤ, pos, negsuc}
use ebdental_api.Catalog.{Money}
use ebdental_api.Numerals.{str_nat, two_digits, python_int, is_digit, strip}
use ebdental_api.Khqr.{
  Settings, Parsed, fields, value_error, stuck, tlv, crc16_ccitt, parse_tlv, field_of,
}

-- f"{amount:.2f}": to the nearest cent, to the even one at a half.
unfoldable pub cents : Money → ℕ
cents m =
    let whole = m / 10000 in
    let rest = m % 10000 in
    if ltb 5000 rest || (rest == 5000 && whole % 2 == 1) then whole + 1 else whole

unfoldable pub two_decimals : Money → Text
unfolding cents str_nat two_digits
two_decimals m = str_nat (cents m / 100) ++ (b'.' ∷ two_digits (cents m % 100))

abbrev pub tag : ℕ → ℕ → Text
tag a b = a ∷ b ∷ []

-- What `_build_from_account_id` puts in tag 29.
unfoldable pub optional_tlv : Text → Text → Text
unfolding tlv
optional_tlv t [] = []
optional_tlv t (c ∷ s) = tlv t (take 32 (c ∷ s))

unfoldable pub account : Settings → Text
unfolding optional_tlv tlv
account k =
    tlv (tag b'0' b'0') (take 32 k.account_id)
    ++ (optional_tlv (tag b'0' b'1') k.account_information
        ++ optional_tlv (tag b'0' b'2') k.acquiring_bank)

unfoldable pub expires_ms : Settings → ℕ → ℕ
expires_ms k now_ms = now_ms + k.expiry_minutes * 60 * 1000

-- Tag 99: when the payload was made and when it expires.
unfoldable pub stamps : Settings → ℕ → Text
unfolding tlv expires_ms str_nat
stamps k now_ms =
    tlv (tag b'0' b'0') (str_nat now_ms) ++ tlv (tag b'0' b'1') (str_nat (expires_ms k now_ms))

-- The fields of the payload, in their order, without the checksum.
unfoldable pub account_fields : Settings → ℕ → Money → Text → List (Text × Text)
unfolding account stamps two_decimals tlv
account_fields k now_ms amount bill_number =
    (tag b'0' b'0', b'0' ∷ b'1' ∷ [])
    ∷ (tag b'0' b'1', b'1' ∷ b'2' ∷ [])
    ∷ (tag b'2' b'9', account k)
    ∷ (tag b'5' b'2', b'5' ∷ b'9' ∷ b'9' ∷ b'9' ∷ [])
    ∷ (tag b'5' b'3', b'8' ∷ b'4' ∷ b'0' ∷ [])
    ∷ (tag b'5' b'4', two_decimals amount)
    ∷ (tag b'5' b'8', b'K' ∷ b'H' ∷ [])
    ∷ (tag b'5' b'9', take 25 k.merchant_name)
    ∷ (tag b'6' b'0', take 15 k.merchant_city)
    ∷ (tag b'6' b'2', tlv (tag b'0' b'1') (take 25 bill_number))
    ∷ (tag b'9' b'9', stamps k now_ms)
    ∷ []

unfoldable pub tlvs : List (Text × Text) → Text
unfolding tlv
tlvs [] = []
tlvs ((t, v) ∷ fs) = tlv t v ++ tlvs fs

abbrev pub crc_tag : Text
crc_tag = b'6' ∷ b'3' ∷ b'0' ∷ b'4' ∷ []

-- payload + "6304" + _crc16_ccitt(payload + "6304")
unfoldable pub sealed : Text → Text
unfolding crc16_ccitt
sealed payload = payload ++ (crc_tag ++ crc16_ccitt (payload ++ crc_tag))

unfoldable pub build_from_account_id : Settings → ℕ → Money → Text → Text
unfolding sealed tlvs account_fields
build_from_account_id k now_ms amount bill_number =
    sealed (tlvs (account_fields k now_ms amount bill_number))

-- The order of `sorted` on texts.
unfoldable pub text_lt : Text → Text → Bool
text_lt [] [] = false
text_lt [] (b ∷ t) = true
text_lt (a ∷ s) [] = false
text_lt (a ∷ s) (b ∷ t) = ltb a b || (a == b && text_lt s t)

unfoldable pub insert_tag : Text → List Text → List Text
unfolding text_lt
insert_tag t [] = t ∷ []
insert_tag t (u ∷ us) =
    if text_eq t u then u ∷ us else (if text_lt t u then t ∷ u ∷ us else u ∷ insert_tag t us)

-- sorted(fields), each key once
unfoldable pub sorted_tags : List (Text × Text) → List Text
unfolding insert_tag
sorted_tags [] = []
sorted_tags ((t, v) ∷ fs) = insert_tag t (sorted_tags fs)

abbrev pub is_between : Option ℤ → Bool
is_between (some (pos n)) = leb 26 n && leb n 51
is_between _ = false

-- tag.isdigit() and 26 <= int(tag) <= 51
unfoldable pub is_account_tag : Text → Bool
unfolding is_digit python_int
is_account_tag t = not (any (λ c. not (is_digit c)) t) && is_between (python_int t)

unfoldable pub account_tags : List (Text × Text) → List Text → Text
unfolding is_account_tag tlv field_of
account_tags fs [] = []
account_tags fs (t ∷ ts) =
    (if is_account_tag t then tlv t (value_or (field_of t fs) []) else []) ++ account_tags fs ts

-- `fields.get(tag) or other`
unfoldable pub field_or : Text → List (Text × Text) → Text → Text
unfolding field_of
field_or t fs other = elim (field_of t fs) [ some (c ∷ s) ↦ c ∷ s | _ ↦ other ]

-- What a builder comes to: the payload, or the exception that it raises.
pub data Built : Type 0 where
  built : Text → Built
  not_configured no_account_tag malformed_template endless_template : Built

unfoldable pub from_fields : Settings → ℕ → Money → Text → List (Text × Text) → Built
unfolding account_tags sorted_tags field_or two_decimals sealed tlv
from_fields k now_ms amount bill_number fs = elim (account_tags fs (sorted_tags fs)) [
  | [] ↦ no_account_tag
  | c ∷ s ↦ built (
      sealed (
        tlv (tag b'0' b'0') (b'0' ∷ b'1' ∷ [])
        ++ (tlv (tag b'0' b'1') (b'1' ∷ b'2' ∷ [])
            ++ ((c ∷ s)
                ++ (tlv (tag b'5' b'2')
                      (field_or (tag b'5' b'2') fs (b'5' ∷ b'9' ∷ b'9' ∷ b'9' ∷ []))
                    ++ (tlv (tag b'5' b'3') (b'8' ∷ b'4' ∷ b'0' ∷ [])
                        ++ (tlv (tag b'5' b'4') (two_decimals amount)
                            ++ (tlv (tag b'5' b'8') (field_or (tag b'5' b'8') fs (b'K' ∷ b'H' ∷ []))
                                ++ (tlv (tag b'5' b'9')
                                      (take 25 (field_or (tag b'5' b'9') fs k.merchant_name))
                                    ++ (tlv (tag b'6' b'0')
                                          (take 15 (field_or (tag b'6' b'0') fs k.merchant_city))
                                        ++ (tlv (tag b'6' b'2')
                                              (tlv (tag b'0' b'1') (take 25 bill_number))
                                            ++ tlv (tag b'9' b'9')
                                                (tlv (tag b'0' b'0') (str_nat now_ms)))))))))))))
]

unfoldable pub build_from_template : Settings → ℕ → Money → Text → Built
unfolding from_fields parse_tlv strip
build_from_template k now_ms amount bill_number = elim (parse_tlv (strip k.static_template)) [
  | fields fs ↦ from_fields k now_ms amount bill_number fs
  | value_error ↦ malformed_template
  | stuck ↦ endless_template
]

-- `settings.X` as a test.
abbrev pub is_set : Text → Bool
is_set [] = false
is_set (_ ∷ _) = true

-- The payload of `build_khqr`; its second value is `md5` of it.
unfoldable pub build_khqr : Settings → ℕ → Money → Text → Built
unfolding build_from_account_id build_from_template
build_khqr k now_ms amount bill_number =
    if is_set k.account_id
    then built (build_from_account_id k now_ms amount bill_number)
    else (if is_set k.static_template
        then build_from_template k now_ms amount bill_number
        else not_configured)

-- n < now_ms
abbrev pub is_past : ℤ → ℕ → Bool
is_past (pos n) now_ms = ltb n now_ms
is_past (negsuc n) now_ms = true

unfoldable pub expiry_past : ℕ → Option Text → Bool
unfolding python_int
expiry_past now_ms (some (c ∷ s)) = elim (python_int (c ∷ s)) [
  | some n ↦ is_past n now_ms
  | none ↦ false
]
expiry_past now_ms _ = false

-- Tag 99 of a payload, with its own fields.
unfoldable pub stamps_of : Parsed → Parsed
unfolding field_of parse_tlv
stamps_of (fields fs) = parse_tlv (value_or (field_of (tag b'9' b'9') fs) [])
stamps_of value_error = value_error
stamps_of stuck = stuck

-- `none` is a run that does not end.
unfoldable pub expired_by : ℕ → Parsed → Option Bool
unfolding expiry_past field_of
expired_by now_ms (fields fs) = some (expiry_past now_ms (field_of (tag b'0' b'1') fs))
expired_by now_ms value_error = some false
expired_by now_ms stuck = none

unfoldable pub khqr_expired : ℕ → Text → Option Bool
unfolding expired_by stamps_of parse_tlv
khqr_expired now_ms qr = expired_by now_ms (stamps_of (parse_tlv qr))
