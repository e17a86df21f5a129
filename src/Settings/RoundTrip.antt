-- ===== src/Settings/RoundTrip.antt =====
-- internal/settings/store.go: theorems on Save followed by Load.
use panel4wp.Prelude.{
  ◌≡◌, refl, ◌⊎◌, inl, inr, Bool, true, false, Option, none, some, ok, is_ok, Text, Bool-cases,
  Option-cases, Result-cases,
}
use panel4wp.Prelude.Int.{pos}
use panel4wp.Files.{File, content}
use panel4wp.Settings.{Mail, Envelope, Sealing, validate_mail, trimmed, sealed_text, save, load}

-- What is encoded is decoded, and what is sealed under a nonce is opened under it.
pub record Opens (s : Sealing) : Type 0 where
  pub mail : (m : Mail) → s.decode_mail (s.encode_mail m) ≡ some m
  pub envelope : (e : Envelope) → s.decode_envelope (s.encode_envelope e) ≡ some e
  pub base64 : (t : Text) → s.from_base64 (s.base64 t) ≡ some t
  pub opened : (nonce plain : Text) → s.unseal nonce (s.seal nonce plain) ≡ some plain

load-sealed_text :
    (s : Sealing) (nonce : Text) (m : Mail)
    → Opens s
    → load s (content (sealed_text s nonce m)) ≡ ok m
unfolding load sealed_text
load-sealed_text s nonce m o =
    let inner = s.seal nonce (s.encode_mail m) in
    rw
      (
        o.envelope (record { version = pos 1; nonce = s.base64 nonce; sealed = s.base64 inner }),
        o.base64 nonce,
        o.base64 inner,
        o.opened nonce (s.encode_mail m),
        o.mail m,
      )
      refl

-- Why a Save fails: the settings are invalid, there are no random bytes, or the write fails.
abbrev pub NotSaved : Option Text → Bool → Mail → Type 0
NotSaved random fails m =
    (is_ok (validate_mail (trimmed m)) ≡ false) ⊎ ((random ≡ none) ⊎ (fails ≡ true))

-- With a sealing that opens what it sealed and codecs that decode what they encoded: a Save either
-- reports no error, and then the settings with their texts trimmed are valid and Load gives them back, or
-- it reports an error and leaves the file as it was, and this only if the trimmed settings are invalid,
-- the random bytes cannot be read or the write fails.
pub load-save :
    (s : Sealing) (random : Option Text) (fails : Bool) (m : Mail) (f : File)
    → Opens s
    → (((save s random fails m f).0 ≡ ok tt)
        × (load s (save s random fails m f).1 ≡ ok (trimmed m))
        × (validate_mail (trimmed m) ≡ ok tt))
      ⊎ ((is_ok (save s random fails m f).0 ≡ false)
          × ((save s random fails m f).1 ≡ f)
          × NotSaved random fails m)
unfolding save
load-save s random fails m f o = elim (Result-cases (validate_mail (trimmed m))) [
  | inr (e, v) ↦ inr (rw (v, save) refl, rw (v, save) refl, inl (rw v refl))
  | inl (tt, v) ↦ elim (Option-cases random) [
    | inl n ↦ inr (rw (v, save) (rw n refl), rw (v, save) (rw n refl), inr (inl n))
    | inr (nonce, n) ↦ elim (Bool-cases fails) [
      | inl bad ↦
          inr (rw (v, save) (rw (n, bad) refl), rw (v, save) (rw (n, bad) refl), inr (inr bad))
      | inr good ↦ inl (
        rw (v, save) (rw (n, good) refl),
        rw (v, save) (rw (n, good) (load-sealed_text s nonce (trimmed m) o)),
        v,
      )
    ]
  ]
]
