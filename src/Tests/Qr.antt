-- ===== src/Tests/Qr.antt =====
-- The QR payloads of a shop with an account, and of one whose payee texts are as long as they may be.
use ebdental_api.Prelude.{
  Text, ℕ, ◌+◌, ◌*◌, some, List, [], ◌∷◌, ◌++◌, ◌≡◌, ◌≢◌, refl, arith, length, ltb,
}
use ebdental_api.Prelude.Int.{pos, ◌+ℤ◌}
use ebdental_api.Catalog.{dollar, cent}
use ebdental_api.Numerals.{python_int}
use ebdental_api.Khqr.{
  Settings, fields, stuck, crc16_ccitt, crc_rounds, parse_loop, parse_tlv, slice,
}
use ebdental_api.Khqr.Build.{
  tag, account, account_fields, tlvs, cents, expires_ms, build_from_account_id, khqr_expired,
  two_decimals, build_khqr, not_configured, no_account_tag, malformed_template,
}
use ebdental_api.Khqr.Parse.{parse_tlv-tlvs}
use ebdental_api.Khqr.Ends.{parse_loop-endless, parse_tlv-ends}
use ebdental_api.Khqr.Crc.{crc16_ccitt-one_wrong}
use ebdental_api.Khqr.Expiry.{
  Fits, checksum, parse_tlv-build_from_account_id, khqr_expired-build_from_account_id,
}
use ebdental_api.Khqr.TooLong.{build_from_account_id_unreadable}

-- The check value of CRC-16/CCITT-FALSE.
check_value :
    crc16_ccitt (49 ∷ 50 ∷ 51 ∷ 52 ∷ 53 ∷ 54 ∷ 55 ∷ 56 ∷ 57 ∷ []) ≡ b'2' ∷ b'9' ∷ b'B' ∷ b'1' ∷ []
unfolding crc16_ccitt crc_rounds
check_value = refl

three_dollars_five : two_decimals (3 * dollar + 5 * cent) ≡ b'3' ∷ b'.' ∷ b'0' ∷ b'5' ∷ []
unfolding two_decimals
three_dollars_five = refl

abbrev settings : Settings
settings = record {
  account_id = 97 ∷ 64 ∷ 98 ∷ [];
  account_information = [];
  acquiring_bank = 98 ∷ [];
  static_template = [];
  merchant_name = 69 ∷ 66 ∷ [];
  merchant_city = 80 ∷ 80 ∷ [];
  expiry_minutes = 15;
}

abbrev made_at : ℕ
made_at = 1700000000000

abbrev bill : Text
bill = 48 ∷ 48 ∷ 49 ∷ []

settings-Fits : Fits settings made_at (3 * dollar)
unfolding account expires_ms cents
settings-Fits = record { payee = omega arith; moment = omega arith; sum = omega arith }

khqr_expired-build_from_account_id_example :
    khqr_expired (made_at + 1) (build_from_account_id settings made_at (3 * dollar) bill)
    ≡ some (ltb (made_at + settings.expiry_minutes * 60 * 1000) (made_at + 1))
khqr_expired-build_from_account_id_example =
    khqr_expired-build_from_account_id settings made_at (3 * dollar) settings-Fits bill
      (made_at + 1)

parse_tlv-build_from_account_id_example :
    parse_tlv (build_from_account_id settings made_at (3 * dollar) bill)
    ≡ fields (
        account_fields settings made_at (3 * dollar) bill
        ++ (checksum (tlvs (account_fields settings made_at (3 * dollar) bill)) ∷ []))
parse_tlv-build_from_account_id_example =
    parse_tlv-build_from_account_id settings made_at (3 * dollar) settings-Fits bill

abbrev two_fields : List (Text × Text)
two_fields = (tag b'0' b'0', 48 ∷ 49 ∷ []) ∷ (tag b'5' b'9', settings.merchant_name) ∷ []

parse_tlv-tlvs_example : parse_tlv (tlvs two_fields) ≡ fields two_fields
parse_tlv-tlvs_example = parse_tlv-tlvs two_fields ((refl, omega arith), ((refl, omega arith), tt))

parse_loop-endless_example : parse_loop 1000 (b'0' ∷ b'0' ∷ b'-' ∷ b'4' ∷ b'x' ∷ []) (pos 0) ≡ stuck
parse_loop-endless_example = parse_loop-endless b'0' b'0' (b'x' ∷ []) 1000

abbrev cut_off : Text
cut_off = b'0' ∷ b'0' ∷ b'0' ∷ b'9' ∷ b'1' ∷ []

parse_tlv-ends_example : parse_tlv cut_off ≢ stuck
parse_tlv-ends_example = parse_tlv-ends cut_off (refl, (refl, (refl, (refl, (refl, tt)))))

-- A value that is cut off is taken as far as it goes.
cut_off_value : parse_tlv cut_off ≡ fields ((tag b'0' b'0', b'1' ∷ []) ∷ [])
unfolding parse_tlv slice ◌+ℤ◌ python_int
cut_off_value = refl

crc16_ccitt-one_wrong_example :
    crc16_ccitt ((49 ∷ []) ++ 50 ∷ 51 ∷ []) ≢ crc16_ccitt ((49 ∷ []) ++ 57 ∷ 51 ∷ [])
crc16_ccitt-one_wrong_example =
    crc16_ccitt-one_wrong (49 ∷ []) (51 ∷ []) 50 57 (omega arith, tt) (omega arith, tt)
      (omega arith) (omega arith) (λ e. omega (arith, e))

abbrev thirty_two : Text
thirty_two =
    97 ∷ 97 ∷ 97 ∷ 97 ∷ 97 ∷ 97 ∷ 97 ∷ 97 ∷ 97 ∷ 97 ∷ 97 ∷ 97 ∷ 97 ∷ 97 ∷ 97 ∷ 97 ∷ 97 ∷ 97 ∷ 97
    ∷ 97 ∷ 97 ∷ 97 ∷ 97 ∷ 97 ∷ 97 ∷ 97 ∷ 97 ∷ 97 ∷ 97 ∷ 97 ∷ 97 ∷ 97 ∷ []

abbrev full_settings : Settings
full_settings = record settings {
  account_id = thirty_two;
  account_information = thirty_two;
  acquiring_bank = thirty_two;
}

full_account : length (account full_settings) ≡ 108
unfolding account
full_account = refl

build_from_account_id_unreadable_example :
    parse_tlv (build_from_account_id full_settings made_at (3 * dollar) bill)
    ≢ fields (
        account_fields full_settings made_at (3 * dollar) bill
        ++ (checksum (tlvs (account_fields full_settings made_at (3 * dollar) bill)) ∷ []))
build_from_account_id_unreadable_example =
    build_from_account_id_unreadable full_settings made_at (3 * dollar) bill full_account

unconfigured :
    build_khqr (record settings { account_id = [] }) made_at (3 * dollar) bill ≡ not_configured
unfolding build_khqr
unconfigured = refl

-- A template without a payee.
no_payee :
    build_khqr
      (record settings { account_id = []; static_template = tlvs two_fields })
      made_at
      (3 * dollar)
      bill
    ≡ no_account_tag
unfolding build_khqr tlvs slice ◌+ℤ◌
no_payee = refl

not_a_number :
    build_khqr
      (record settings { account_id = []; static_template = 48 ∷ 48 ∷ 120 ∷ 120 ∷ [] })
      made_at
      (3 * dollar)
      bill
    ≡ malformed_template
unfolding build_khqr slice ◌+ℤ◌
not_a_number = refl
