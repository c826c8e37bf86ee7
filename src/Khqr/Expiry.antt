-- ===== src/Khqr/Expiry.antt =====
-- A payload of `_build_from_account_id` read back, and when `khqr_expired` says that it has expired.
use ebdental_api.Prelude.{
  Text, ℕ, ◌+◌, ◌*◌, ◌/◌, ◌%◌, ◌≤◌, ◌<◌, some, List, [], ◌∷◌, ◌++◌, ◌≡◌, ◌≢◌, refl, sym, ap, ◌∙◌,
  arith, length, length-append, take, All, All-append, ltb, value_or,
}
use mathlib.Core.List.{append_assoc, append-nil}
use ebdental_api.Prelude.Int.{pos}
use ebdental_api.Catalog.{Money}
use ebdental_api.Numerals.{str_nat, two_digits, python_int}
use ebdental_api.Numerals.ReadBack.{python_int-str_nat, length-two_digits, ten_to, length-str_nat}
use ebdental_api.Khqr.{Settings, fields, tlv, crc16_ccitt, parse_tlv, field_of}
use ebdental_api.Khqr.Build.{
  tag, cents, two_decimals, account, expires_ms, stamps, account_fields, tlvs, sealed,
  build_from_account_id, expiry_past, stamps_of, expired_by, khqr_expired,
}
use ebdental_api.Khqr.Parse.{IsField, length-take, parse_tlv-tlvs}

-- The checksum as a field.
abbrev pub checksum : Text → Text × Text
checksum payload = (tag b'6' b'3', crc16_ccitt (payload ++ (b'6' ∷ b'3' ∷ b'0' ∷ b'4' ∷ [])))

tlvs-append : (fs gs : List (Text × Text)) → tlvs (fs ++ gs) ≡ tlvs fs ++ tlvs gs
unfolding tlvs
tlvs-append [] gs = refl
tlvs-append ((t, v) ∷ fs) gs =
    ap (λ x. tlv t v ++ x) (tlvs-append fs gs) ∙ sym (append_assoc (tlv t v) (tlvs fs) (tlvs gs))

tlvs-checksum :
    (payload : Text)
    → tlvs (checksum payload ∷ []) ≡ b'6' ∷ b'3' ∷ b'0' ∷ b'4' ∷ (checksum payload).1
unfolding tlvs tlv crc16_ccitt
tlvs-checksum payload = refl

pub sealed-tlvs :
    (fs : List (Text × Text)) → sealed (tlvs fs) ≡ tlvs (fs ++ (checksum (tlvs fs) ∷ []))
unfolding sealed
sealed-tlvs fs =
    ap (λ x. tlvs fs ++ x) (sym (tlvs-checksum (tlvs fs)))
    ∙ sym (tlvs-append fs (checksum (tlvs fs) ∷ []))

length-crc16_ccitt : (s : Text) → length (crc16_ccitt s) ≡ 4
unfolding crc16_ccitt
length-crc16_ccitt s = refl

length-tlv : (t v : Text) → length t ≡ 2 → length v ≤ 99 → length (tlv t v) ≡ length v + 4
unfolding tlv
length-tlv t v two short = omega (
  arith,
  length-append t (two_digits (length v) ++ v),
  length-append (two_digits (length v)) v,
  length-two_digits (length v) (omega (arith, short)),
)

-- What the settings, the moment and the amount have to be for every field to have a length of two
-- digits: the three payee texts of at most 87 characters in all, a number of milliseconds of at most
-- twenty digits, and an amount of at most eighteen digits before the point.
pub record Fits (k : Settings) (now_ms : ℕ) (amount : Money) : Type 0 where
  pub payee : length (account k) ≤ 99
  pub moment : expires_ms k now_ms < ten_to 20
  pub sum : cents amount / 100 < ten_to 18

tlvs_two : (s t u v : Text) → tlv s u ++ tlv t v ≡ tlvs ((s, u) ∷ (t, v) ∷ [])
unfolding tlvs
tlvs_two s t u v = ap (λ x. tlv s u ++ x) (sym (append-nil (tlv t v)))

no_number : (n : ℕ) → python_int [] ≢ some (pos n)
unfolding python_int
no_number n h = cc

abbrev stamp_fields : Settings → ℕ → List (Text × Text)
stamp_fields k now_ms =
    (tag b'0' b'0', str_nat now_ms) ∷ (tag b'0' b'1', str_nat (expires_ms k now_ms)) ∷ []

-- Tag 99 is found behind the ten fields before it.
field_of_ninety_nine :
    (a b c d e f g h i j s x : Text)
    → field_of (tag b'9' b'9') (
        (tag b'0' b'0', a)
        ∷ (tag b'0' b'1', b)
        ∷ (tag b'2' b'9', c)
        ∷ (tag b'5' b'2', d)
        ∷ (tag b'5' b'3', e)
        ∷ (tag b'5' b'4', f)
        ∷ (tag b'5' b'8', g)
        ∷ (tag b'5' b'9', h)
        ∷ (tag b'6' b'0', i)
        ∷ (tag b'6' b'2', j)
        ∷ (tag b'9' b'9', s)
        ∷ (tag b'6' b'3', x)
        ∷ [])
      ≡ some s
unfolding field_of
field_of_ninety_nine a b c d e f g h i j s x = refl

field_of-stamps :
    (k : Settings) (now_ms : ℕ) (amount : Money) (bill_number : Text)
    → field_of (tag b'9' b'9') (
        account_fields k now_ms amount bill_number
        ++ (checksum (tlvs (account_fields k now_ms amount bill_number)) ∷ []))
      ≡ some (stamps k now_ms)
unfolding account_fields
field_of-stamps k now_ms amount bill_number = field_of_ninety_nine _ _ _ _ _ _ _ _ _ _ _ _

field_of_second :
    (a b : Text) → field_of (tag b'0' b'1') ((tag b'0' b'0', a) ∷ (tag b'0' b'1', b) ∷ []) ≡ some b
unfolding field_of
field_of_second a b = refl

expiry_past-number :
    (later n : ℕ) (t : Text)
    → python_int t ≡ some (pos n)
    → expiry_past later (some t) ≡ ltb n later
unfolding expiry_past
expiry_past-number later n [] h = absurd (no_number n h)
expiry_past-number later n (c ∷ t) h = rw (h, expiry_past) refl

expires_ms_lem :
    (k : Settings) (now_ms : ℕ) → expires_ms k now_ms ≡ now_ms + k.expiry_minutes * 60 * 1000
unfolding expires_ms
expires_ms_lem k now_ms = refl

expired_by-stamps :
    (later n : ℕ) (a : Text)
    → expired_by later (fields ((tag b'0' b'0', a) ∷ (tag b'0' b'1', str_nat n) ∷ []))
      ≡ some (ltb n later)
unfolding expired_by
expired_by-stamps later n a =
    ap (λ o. some (expiry_past later o)) (field_of_second a (str_nat n))
    ∙ ap some (expiry_past-number later n (str_nat n) (python_int-str_nat n))

module _ (k : Settings) (now_ms : ℕ) (amount : Money) (fits : Fits k now_ms amount) where
  made_before : now_ms < ten_to 20
  unfolding expires_ms
  made_before = omega (arith, fits.moment)

  length-stamps : length (stamps k now_ms) ≤ 99
  unfolding stamps
  length-stamps =
      let a = length-str_nat 19 now_ms made_before in
      let b = length-str_nat 19 (expires_ms k now_ms) fits.moment in
      omega (
        arith,
        length-append (tlv (tag b'0' b'0') (str_nat now_ms))
            (tlv (tag b'0' b'1') (str_nat (expires_ms k now_ms))),
        length-tlv (tag b'0' b'0') (str_nat now_ms) refl (omega (arith, a)),
        length-tlv (tag b'0' b'1') (str_nat (expires_ms k now_ms)) refl (omega (arith, b)),
        a,
        b,
      )

  length-two_decimals : length (two_decimals amount) ≤ 99
  unfolding two_decimals
  length-two_decimals = omega (
    arith,
    length-append (str_nat (cents amount / 100)) (b'.' ∷ two_digits (cents amount % 100)),
    length-str_nat 17 (cents amount / 100) fits.sum,
    length-two_digits (cents amount % 100) (omega arith),
  )

  -- Every field is written within the standard.
  account_fields-IsField :
      (bill_number : Text) → All IsField (account_fields k now_ms amount bill_number)
  unfolding account_fields
  account_fields-IsField bill_number =
      let short = length-take 25 bill_number in
      let additional : length (tlv (tag b'0' b'1') (take 25 bill_number)) ≤ 99 = omega (
        arith,
        short,
        length-tlv (tag b'0' b'1') (take 25 bill_number) refl (omega (arith, short)),
      ) in
      let name : length (take 25 k.merchant_name) ≤ 99 =
        omega (arith, length-take 25 k.merchant_name) in
      let city : length (take 15 k.merchant_city) ≤ 99 =
        omega (arith, length-take 15 k.merchant_city) in
      (
        (refl, omega arith),
        (
          (refl, omega arith),
          (
            (refl, fits.payee),
            (
              (refl, omega arith),
              (
                (refl, omega arith),
                (
                  (refl, length-two_decimals),
                  (
                    (refl, omega arith),
                    (
                      (refl, name),
                      ((refl, city), ((refl, additional), ((refl, length-stamps), tt))),
                    ),
                  ),
                ),
              ),
            ),
          ),
        ),
      )

  parse_stamps : parse_tlv (stamps k now_ms) ≡ fields (stamp_fields k now_ms)
  unfolding stamps
  parse_stamps =
      let a = length-str_nat 19 now_ms made_before in
      let b = length-str_nat 19 (expires_ms k now_ms) fits.moment in
      ap parse_tlv (tlvs_two _ _ _ _)
      ∙ parse_tlv-tlvs (stamp_fields k now_ms)
          ((refl, omega (arith, a)), ((refl, omega (arith, b)), tt))

  -- Round trip: the payload reads back as the fields that it was built of, and its checksum.
  pub parse_tlv-build_from_account_id :
      (bill_number : Text)
      → parse_tlv (build_from_account_id k now_ms amount bill_number)
        ≡ fields (
            account_fields k now_ms amount bill_number
            ++ (checksum (tlvs (account_fields k now_ms amount bill_number)) ∷ []))
  unfolding build_from_account_id
  parse_tlv-build_from_account_id bill_number =
      let fs = account_fields k now_ms amount bill_number in
      ap parse_tlv (sealed-tlvs fs)
      ∙ parse_tlv-tlvs (fs ++ (checksum (tlvs fs) ∷ [])) (
          All-append IsField fs (checksum (tlvs fs) ∷ []) (account_fields-IsField bill_number) (
            (refl, omega (arith, length-crc16_ccitt (tlvs fs ++ (b'6' ∷ b'3' ∷ b'0' ∷ b'4' ∷ [])))),
            tt,
          ))

  stamps_of_payload :
      (bill_number : Text)
      → stamps_of (parse_tlv (build_from_account_id k now_ms amount bill_number))
        ≡ fields (stamp_fields k now_ms)
  unfolding stamps_of
  stamps_of_payload bill_number =
      ap stamps_of (parse_tlv-build_from_account_id bill_number)
      ∙ ap (λ o. parse_tlv (value_or o [])) (field_of-stamps k now_ms amount bill_number)
      ∙ parse_stamps

  -- A payload that `_build_from_account_id` made, of fields that fit a length of two digits (`Fits`),
  -- counts as expired exactly from the millisecond after the one that it names on: the settings'
  -- minutes after it was made.
  pub khqr_expired-build_from_account_id :
      (bill_number : Text) (later : ℕ)
      → khqr_expired later (build_from_account_id k now_ms amount bill_number)
        ≡ some (ltb (now_ms + k.expiry_minutes * 60 * 1000) later)
  unfolding khqr_expired
  khqr_expired-build_from_account_id bill_number later =
      ap (expired_by later) (stamps_of_payload bill_number)
      ∙ expired_by-stamps later (expires_ms k now_ms) (str_nat now_ms)
      ∙ ap (λ n. some (ltb n later)) (expires_ms_lem k now_ms)
