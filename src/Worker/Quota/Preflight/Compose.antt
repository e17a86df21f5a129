-- ===== src/Worker/Quota/Preflight/Compose.antt =====
-- cmd/worker/quota_restart.go: lemmas on the Compose file that ensureQuotaRestartCompose leaves.
use panel4wp.Prelude.{
  ◌≡◌, refl, inl, inr, Bool, false, [], Text, ◌==◌, text_eq, split, Bool-cases, Result-cases,
  eq_of_==, nat_eq,
}
use panel4wp.Files.{
  File, missing, unreadable, content, Write, written, failed_before, failed_after, atomic_config,
}
use panel4wp.Worker.Quota.Restart.{quota_restart_compose, newline}
use panel4wp.Worker.Quota.Restart.Laws.{RestartsOff, quota_restart_compose_lem}
use panel4wp.Worker.Quota.Preflight.{rewrite_compose, ensure_quota_restart_compose}

-- The file is a Compose file whose two services are not restarted by Docker.
abbrev pub HasRestartsOff : File → Type 0
HasRestartsOff f = (text : Text) × (f ≡ content text) × RestartsOff [] (split newline text)

atomic-HasRestartsOff :
    (w : Write) (text : Text) (f : File)
    → RestartsOff [] (split newline text)
    → (atomic_config w text f).1 ≡ false
    → HasRestartsOff (atomic_config w text f).0
unfolding atomic_config
atomic-HasRestartsOff written text f r h = (text, refl, r)
atomic-HasRestartsOff failed_before text f r h = cc
atomic-HasRestartsOff failed_after text f r h = cc

rewrite_compose-HasRestartsOff :
    (w : Write) (f : File)
    → (rewrite_compose w f).1 ≡ false
    → HasRestartsOff (rewrite_compose w f).0
unfolding rewrite_compose
rewrite_compose-HasRestartsOff w missing h = cc
rewrite_compose-HasRestartsOff w unreadable h = cc
rewrite_compose-HasRestartsOff w (content text) h =
    elim (Result-cases (quota_restart_compose text)) [
      | inr (e, k) ↦ cc (rw (k, rewrite_compose) at h)
      | inl (updated, k) ↦
          let (lines, off, again) = quota_restart_compose_lem text k in
          elim (Bool-cases (text == updated)) [
            | inl same ↦
                rw (k, rewrite_compose) (rw same (text, refl, rw (eq_of_== text updated same) off))
            | inr new ↦
                rw (k, rewrite_compose)
                  (rw new (
                    atomic-HasRestartsOff w updated (content text) off
                      (rw new at (rw (k, rewrite_compose) at h))))
          ]
    ]

pub ensure-HasRestartsOff :
    (policy : File → File × Bool) (w : Write) (f : File)
    → (ensure_quota_restart_compose policy w f).1 ≡ false
    → HasRestartsOff (ensure_quota_restart_compose policy w f).0
unfolding ensure_quota_restart_compose
ensure-HasRestartsOff policy w f h = elim (Bool-cases (policy f).1) [
  | inl bad ↦ cc (rw bad at h)
  | inr good ↦ rw good (rewrite_compose-HasRestartsOff w (policy f).0 (rw good at h))
]
