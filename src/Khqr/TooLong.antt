-- ===== src/Khqr/TooLong.antt =====
-- What becomes of a payload whose payee data is longer than a length of two digits can say.
use ebdental_api.Prelude.{
  Text, ℕ, suc, ◌-◌, List, [], ◌∷◌, ◌++◌, ◌≡◌, ◌≢◌, refl, sym, ap, ◌∙◌, arith, length,
  length-append,
}
use mathlib.Core.List.{append_assoc}
use ebdental_api.Prelude.Int.{pos}
use ebdental_api.Catalog.{Money}
use ebdental_api.Khqr.{Settings, fields, tlv, parse_loop, parse_tlv}
use ebdental_api.Khqr.Build.{account, account_fields, tlvs, build_from_account_id}
use ebdental_api.Khqr.Parse.{IsField, parse_loop-tlv, length-tlv_ge, prepend-inj, tlv_too_long}
use ebdental_api.Khqr.Expiry.{checksum, sealed-tlvs}

third_too_long :
    (rounds : ℕ) (t u x v w y : Text) (fs gs : List (Text × Text)) (s : Text)
    → IsField (t, v)
    → IsField (u, w)
    → length x ≡ 2
    → length y ≡ 108
    → s ≡ tlvs ((t, v) ∷ (u, w) ∷ (x, y) ∷ fs)
    → parse_loop (suc (suc (suc rounds))) s (pos 0) ≢ fields ((t, v) ∷ (u, w) ∷ (x, y) ∷ gs)
unfolding tlvs
third_too_long rounds t u x v w y fs gs s f g two long e h =
    let first = parse_loop-tlv (suc (suc rounds)) t v (tlvs ((u, w) ∷ (x, y) ∷ fs)) [] s f e in
    let h1 = (prepend-inj _ _ _ _ (sym first ∙ h)).1 in
    let e2 : s ≡ tlv t v ++ (tlv u w ++ tlvs ((x, y) ∷ fs)) = e in
    let second = parse_loop-tlv (suc rounds) u w (tlvs ((x, y) ∷ fs)) (tlv t v) s g e2 in
    let h2 = (prepend-inj _ _ _ _ (sym second ∙ h1)).1 in
    tlv_too_long rounds x y (tlvs fs) (tlv t v ++ tlv u w) s gs two long
      (e2 ∙ sym (append_assoc (tlv t v) (tlv u w) _)) h2

parse_tlv_third :
    (t u x v w y : Text) (fs : List (Text × Text)) (s : Text)
    → IsField (t, v)
    → IsField (u, w)
    → length x ≡ 2
    → length y ≡ 108
    → s ≡ tlvs ((t, v) ∷ (u, w) ∷ (x, y) ∷ fs)
    → parse_tlv s ≢ fields ((t, v) ∷ (u, w) ∷ (x, y) ∷ fs)
unfolding parse_tlv tlvs
parse_tlv_third t u x v w y fs s f g two long e h =
    let rounds : length s ≡ suc (suc (length s - 2)) = omega (
      arith,
      ap length e,
      length-append (tlv t v) (tlv u w ++ (tlv x y ++ tlvs fs)),
      length-tlv_ge t v f.0,
    ) in
    third_too_long (length s - 2) t u x v w y fs fs s f g two long e
      (ap (λ n. parse_loop (suc n) s (pos 0)) (sym rounds) ∙ h)

-- With payee texts that fill their 32 characters each, tag 29 has 108 characters, and what
-- `_parse_tlv` makes of the payload is not what the payload was built of.
pub build_from_account_id_unreadable :
    (k : Settings) (now_ms : ℕ) (amount : Money) (bill_number : Text)
    → length (account k) ≡ 108
    → parse_tlv (build_from_account_id k now_ms amount bill_number)
      ≢ fields (
          account_fields k now_ms amount bill_number
          ++ (checksum (tlvs (account_fields k now_ms amount bill_number)) ∷ []))
unfolding build_from_account_id account_fields
build_from_account_id_unreadable k now_ms amount bill_number long =
    parse_tlv_third _ _ _ _ _ _ _ _ (refl, omega arith) (refl, omega arith) refl long
      (sealed-tlvs (account_fields k now_ms amount bill_number))
