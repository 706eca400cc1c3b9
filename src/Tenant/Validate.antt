-- ===== src/Tenant/Validate.antt =====
-- tenant/manager.rs, input validation.
pub mod Identifiers
use peat_gateway.Base.{
  ℕ, Text, codes, starts_with, Bool, true, false, not, ◌&&◌, ◌||◌, Option, none, some, List, [],
  ◌∷◌, Result, ok, err, and_then, require, empty_field, too_long, bad_first_char, bad_char,
  bad_scheme, length, all, ltb, leb, nat_eq, if◌then◌else◌,
}
use peat_gateway.Tenant.Models.{CdcSinkType, nats, kafka, webhook}

abbrev pub max_identifier_len : ℕ
max_identifier_len = 128

abbrev pub max_display_name_len : ℕ
max_display_name_len = 1024

abbrev pub within : ℕ → ℕ → ℕ → Bool
within lo hi c = leb lo c && leb c hi

-- `u8::is_ascii_alphanumeric`
abbrev pub is_ascii_alphanumeric : ℕ → Bool
is_ascii_alphanumeric c = within b'0' b'9' c || within b'A' b'Z' c || within b'a' b'z' c

abbrev pub is_identifier_byte : ℕ → Bool
is_identifier_byte b = is_ascii_alphanumeric b || nat_eq b b'.' || nat_eq b b'_' || nat_eq b b'-'

abbrev pub first_byte_ok : Text → Bool
first_byte_ok [] = false
first_byte_ok (b ∷ bs) = is_ascii_alphanumeric b

abbrev pub is_empty : Text → Bool
is_empty [] = true
is_empty (b ∷ bs) = false

unfoldable pub validate_identifier : Text → Result (Unit {0})
validate_identifier value =
    if is_empty value
    then err empty_field
    else if ltb max_identifier_len (length value)
    then err too_long
    else if not (first_byte_ok value)
    then err bad_first_char
    else if not (all is_identifier_byte value)
    then err bad_char
    else ok tt

unfoldable pub validate_display_name : Text → Result (Unit {0})
validate_display_name value =
    if is_empty value
    then err empty_field
    else if ltb max_display_name_len (length value)
    then err too_long
    else ok tt

-- `value.trim().is_empty()`: every character is white space. The states are the parts of a white
-- space character of two or three bytes that were read: U+0085 and U+00A0 (0xC2), U+1680 (0xE1 9A),
-- U+2000 to U+200A, U+2028, U+2029 and U+202F (E2 80), U+205F (E2 81), U+3000 (E3 80).
pub data SpaceState : Type 0 where
  between c2 e1 e1_9a e2 e2_80 e2_81 e3 e3_80 : SpaceState

abbrev pub only : Bool → SpaceState → Option SpaceState
only true s = some s
only false s = none

abbrev pub space_step : SpaceState → ℕ → Option SpaceState
space_step between b =
    if within 9 13 b || nat_eq b 32
    then some between
    else if nat_eq b 0xC2
    then some c2
    else if nat_eq b 0xE1
    then some e1
    else if nat_eq b 0xE2
    then some e2
    else only (nat_eq b 0xE3) e3
space_step c2 b = only (nat_eq b 0x85 || nat_eq b 0xA0) between
space_step e1 b = only (nat_eq b 0x9A) e1_9a
space_step e1_9a b = only (nat_eq b 0x80) between
space_step e2 b = if nat_eq b 0x80 then some e2_80 else only (nat_eq b 0x81) e2_81
space_step e2_80 b = only (within 0x80 0x8A b || within 0xA8 0xA9 b || nat_eq b 0xAF) between
space_step e2_81 b = only (nat_eq b 0x9F) between
space_step e3 b = only (nat_eq b 0x80) e3_80
space_step e3_80 b = only (nat_eq b 0x80) between

unfoldable pub all_spaces : Option SpaceState → Text → Bool
all_spaces none value = false
all_spaces (some between) [] = true
all_spaces (some s) [] = false
all_spaces (some s) (b ∷ bs) = all_spaces (space_step s b) bs

unfoldable pub validate_non_empty : Text → Result (Unit {0})
unfolding all_spaces
validate_non_empty value = if all_spaces (some between) value then err empty_field else ok tt

unfoldable pub validate_http_url : Text → Result (Unit {0})
validate_http_url url =
    if is_empty url
    then err empty_field
    else if not (starts_with url (codes "http://")) && not (starts_with url (codes "https://"))
    then err bad_scheme
    else ok tt

unfoldable pub validate_issuer_url : Text → Result (Unit {0})
validate_issuer_url url =
    if is_empty url
    then err empty_field
    else if not (starts_with url (codes "https://"))
    then err bad_scheme
    else ok tt

unfoldable pub validate_sink_type : CdcSinkType → Result (Unit {0})
validate_sink_type (webhook url) = validate_http_url url
validate_sink_type (nats subject_prefix) = validate_non_empty subject_prefix
validate_sink_type (kafka topic) = validate_non_empty topic
