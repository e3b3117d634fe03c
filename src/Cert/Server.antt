-- ===== src/Cert/Server.antt =====
-- What the proofs about several reconciliations assume of the code outside the repository.
use nacho_operators.Common.{
  ℕ, suc, ◌*◌, ◌≤◌, ◌≡◌, ◌⊎◌, Option, none, some, second, Result, ok, Go, NamespacedName,
}
use nacho_operators.Cert.Types.{Time, CertificateMonitor, Request, Mail}
use nacho_operators.Cert.Services.{Services}

-- A notification at or after a time in whole seconds.
abbrev pub NotifiedSince : ℕ → Option Time → Type 0
NotifiedSince s none = ⊥
NotifiedSince s (some t) = s * second ≤ t.instant

-- JSON keeps a time to the second.
abbrev pub Keeps : Option Time → Option Time → Type 0
Keeps given stored = (s : ℕ) → NotifiedSince s given → NotifiedSince s stored

-- The API server as one monitor sees it, while nobody else writes its status: a status update stores
-- the status that it is given, and one that fails may have been stored and its answer lost. Retrying
-- makes attempts with pauses between them, and returns what the last one does. `sent` counts the
-- requests to web servers and the mails.
pub record IsServer (S : Services) (key : NamespacedName) : Type 1 where
  pub stored_time : S.World → Option Time
  pub get_monitor-stored_time :
      (w : S.World) {m : CertificateMonitor}
      → S.get_monitor key w ≡ ok m
      → m.status.last_notification_time ≡ stored_time w
  pub status_update-stored_time :
      (m : CertificateMonitor) (w : S.World)
      → Keeps m.status.last_notification_time (stored_time (S.status_update m w).1)
        ⊎ (stored_time (S.status_update m w).1 ≡ stored_time w)
  pub status_update_accepted :
      (m : CertificateMonitor) (w : S.World)
      → (S.status_update m w).0 ≡ ok tt
      → Keeps m.status.last_notification_time (stored_time (S.status_update m w).1)
  pub sent : S.World → ℕ
  pub http_do-sent : (r : Request) (w : S.World) → sent (S.http_do r w).1 ≡ suc (sent w)
  pub send_mail-sent : (m : Mail) (w : S.World) → sent (S.send_mail m w).1 ≡ suc (sent w)
  pub status_update-sent :
      (m : CertificateMonitor) (w : S.World) → sent (S.status_update m w).1 ≡ sent w
  pub pause : S.World → S.World
  pub pause-stored_time : (w : S.World) → stored_time (pause w) ≡ stored_time w
  pub pause-sent : (w : S.World) → sent (pause w) ≡ sent w
  pub retry-last :
      (P : S.World → Type 0) (Q : Result (Unit {0}) → S.World → Type 0)
      (call : Go S.World (Result (Unit {0})))
      → ((w : S.World) → P w → P (call w).1)
      → ((w : S.World) → P w → P (pause w))
      → ((w : S.World) → P w → Q (call w).0 (call w).1)
      → (w : S.World) → P w
      → Q (S.retry_on_conflict call w).0 (S.retry_on_conflict call w).1
