-- ===== src/Settings.antt =====
-- internal/settings/store.go: the mail settings, sealed in one file.
pub mod RoundTrip
use panel4wp.Prelude.{
  ℕ, ◌≡◌, Bool, true, false, not, ◌&&◌, ◌||◌, Option, none, some, List, [], ◌∷◌, any, ltb,
  if◌then◌else◌, ◌==◌, nat_eq, text_eq, Text, codes, Result, ok, err, ◌>>=◌, ◌>>◌, fail_if, length,
  contains_any, ok_or,
}
use panel4wp.Prelude.Int.{ℤ, pos, ltb_ℤ, int_beq}
use panel4wp.Strings.Space.{trim_space}
use panel4wp.Strings.Runes.{rune_count}
use panel4wp.Files.{File, missing, unreadable, content}

pub record Mail : Type 0 where
  pub enabled : Bool
  pub host : Text
  pub port : ℤ
  pub encryption : Text
  pub username : Text
  pub password : Text
  pub from_email : Text
  pub from_name : Text

-- The zero value
abbrev pub no_mail : Mail
no_mail = record {
  enabled = false;
  host = [];
  port = pos 0;
  encryption = [];
  username = [];
  password = [];
  from_email = [];
  from_name = [];
}

pub record Envelope : Type 0 where
  pub version : ℤ
  pub nonce : Text
  pub sealed : Text

pub data MailError : Type 0 where
  bad_host bad_port bad_encryption bad_credentials bad_sender bad_name no_random not_written :
      MailError
  unreadable_settings bad_envelope bad_nonce bad_data not_decrypted bad_payload : MailError

-- encoding/json, encoding/base64 and AES-GCM under the store's key.
pub record Sealing : Type 0 where
  pub encode_mail : Mail → Text
  pub decode_mail : Text → Option Mail
  pub encode_envelope : Envelope → Text
  pub decode_envelope : Text → Option Envelope
  pub base64 : Text → Text
  pub from_base64 : Text → Option Text
  pub seal : Text → Text → Text
  pub unseal : Text → Text → Option Text

abbrev bad_host_text : Text → Bool
bad_host_text h =
    h == [] || ltb 253 (length h) || contains_any h (32 ∷ b'/' ∷ 92 ∷ 9 ∷ 13 ∷ 10 ∷ 0 ∷ [])

abbrev bad_login : Mail → Bool
bad_login m =
    ltb 254 (length m.username)
    || contains_any m.username (13 ∷ 10 ∷ 0 ∷ [])
    || ltb 1024 (length m.password)
    || any (λ c. c == 0) m.password

abbrev bad_address : Text → Bool
bad_address a =
    a == []
    || ltb 254 (length a)
    || not (any (λ c. c == b'@') a)
    || contains_any a (32 ∷ 9 ∷ 13 ∷ 10 ∷ 0 ∷ [])

abbrev bad_sender_name : Text → Bool
bad_sender_name n =
    trim_space n == [] || ltb 120 (rune_count n) || contains_any n (13 ∷ 10 ∷ 0 ∷ [])

-- The checks of ValidateMail for settings that are enabled
unfoldable pub check_mail : Mail → Result MailError (Unit {0})
check_mail m = do
  fail_if (bad_host_text (trim_space m.host)) bad_host
  fail_if (ltb_ℤ m.port (pos 1) || ltb_ℤ (pos 65535) m.port) bad_port
  fail_if
      (not (m.encryption == codes "none")
        && not (m.encryption == codes "starttls")
        && not (m.encryption == codes "tls"))
      bad_encryption
  fail_if (bad_login m) bad_credentials
  fail_if (bad_address m.from_email) bad_sender
  fail_if (bad_sender_name m.from_name) bad_name

-- ValidateMail
unfoldable pub validate_mail : Mail → Result MailError (Unit {0})
validate_mail m = if not m.enabled then ok tt else check_mail m

unfoldable pub trimmed : Mail → Mail
trimmed m = record {
  enabled = m.enabled;
  host = trim_space m.host;
  port = m.port;
  encryption = m.encryption;
  username = trim_space m.username;
  password = m.password;
  from_email = trim_space m.from_email;
  from_name = trim_space m.from_name;
}

-- The text that Save writes
unfoldable pub sealed_text : Sealing → Text → Mail → Text
sealed_text s nonce m = s.encode_envelope (record {
  version = pos 1;
  nonce = s.base64 nonce;
  sealed = s.base64 (s.seal nonce (s.encode_mail m));
})

-- Save, with the random nonce if it could be read, and whether a call of the file system fails: the
-- file is replaced whole or left alone.
unfoldable pub save :
    Sealing → Option Text → Bool → Mail → File → Result MailError (Unit {0}) × File
save s random fails m f = elim (validate_mail (trimmed m)) [
  | err e ↦ (err e, f)
  | ok _ ↦ elim random [
    | none ↦ (err no_random, f)
    | some nonce ↦
        if fails then (err not_written, f) else (ok tt, content (sealed_text s nonce (trimmed m)))
  ]
]

abbrev open_envelope : Sealing → Envelope → Result MailError Mail
open_envelope s e = do
  fail_if (not (int_beq e.version (pos 1))) bad_envelope
  ok_or (s.from_base64 e.nonce) bad_nonce >>= λ nonce.
      ok_or (s.from_base64 e.sealed) bad_data >>= λ sealed.
      ok_or (s.unseal nonce sealed) not_decrypted >>= λ plain.
      ok_or (s.decode_mail plain) bad_payload

-- Load
unfoldable pub load : Sealing → File → Result MailError Mail
load s missing = ok no_mail
load s unreadable = err unreadable_settings
load s (content text) = ok_or (s.decode_envelope text) bad_envelope >>= open_envelope s
