-- ===== src/Tests/Settings.antt =====
-- internal/settings with a plain sealing.
use panel4wp.Prelude.{◌≡◌, refl, ap, ◌⊎◌, true, false, some, [], codes, ok, is_ok}
use panel4wp.Prelude.Int.{pos}
use panel4wp.Files.{missing}
use panel4wp.Settings.{Mail, Envelope, Sealing, validate_mail, trimmed, save, load}
use panel4wp.Settings.RoundTrip.{Opens, NotSaved, load-save}
use panel4wp.Tests.Coder.{Coder, integer, text, both, via, flag}

mail_coder : Coder Mail
mail_coder =
    via (both flag (both text (both integer (both text (both text (both text (both text text)))))))
      (λ m. (
        m.enabled,
        (m.host, (m.port, (m.encryption, (m.username, (m.password, (m.from_email, m.from_name)))))),
      ))
      (λ p. record {
        enabled = p.0;
        host = p.1.0;
        port = p.1.1.0;
        encryption = p.1.1.1.0;
        username = p.1.1.1.1.0;
        password = p.1.1.1.1.1.0;
        from_email = p.1.1.1.1.1.1.0;
        from_name = p.1.1.1.1.1.1.1;
      })
      (λ m. refl)

envelope_coder : Coder Envelope
envelope_coder =
    via (both integer (both text text)) (λ e. (e.version, (e.nonce, e.sealed)))
      (λ p. record { version = p.0; nonce = p.1.0; sealed = p.1.1 }) (λ e. refl)

abbrev plain_sealing : Sealing
plain_sealing = record {
  encode_mail = λ m. mail_coder.put m [];
  decode_mail = λ t. some (mail_coder.get t).0;
  encode_envelope = λ e. envelope_coder.put e [];
  decode_envelope = λ t. some (envelope_coder.get t).0;
  base64 = λ t. t;
  from_base64 = λ t. some t;
  seal = λ n p. p;
  unseal = λ n p. some p;
}

plain_sealing-Opens : Opens plain_sealing
plain_sealing-Opens = record {
  mail = λ m. ap (λ r. some r.0) (mail_coder.law m []);
  envelope = λ e. ap (λ r. some r.0) (envelope_coder.law e []);
  base64 = λ t. refl;
  opened = λ n p. refl;
}

abbrev relay : Mail
relay = record {
  enabled = true;
  host = codes " mail.example.com ";
  port = pos 587;
  encryption = codes "starttls";
  username = codes "me";
  password = codes "secret";
  from_email = codes "me@example.com";
  from_name = codes "Shop";
}

load-save_example :
    ((save plain_sealing (some (codes "n")) false relay missing).0 ≡ ok tt)
      × (load plain_sealing (save plain_sealing (some (codes "n")) false relay missing).1
          ≡ ok (trimmed relay))
      × (validate_mail (trimmed relay) ≡ ok tt)
    ⊎ ((is_ok (save plain_sealing (some (codes "n")) false relay missing).0 ≡ false)
        × ((save plain_sealing (some (codes "n")) false relay missing).1 ≡ missing)
        × NotSaved (some (codes "n")) false relay)
load-save_example =
    load-save plain_sealing (some (codes "n")) false relay missing plain_sealing-Opens
