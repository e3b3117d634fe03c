-- ===== src/Cert/Republish.antt =====
-- The test that is to skip a status update without news.
use nacho_operators.Common.{◌≡◌, refl, Bool, true, false, Option, none, some, List, [], ◌∷◌, arith}
use nacho_operators.Cert.DeepEqual
use nacho_operators.Cert.Types.{Form, utc, local, Time, MonitoredCertificateInfo, Status}
use nacho_operators.Cert.Status.{desired_status, meaningful_change, must_update}

-- All expiry times have one form.
abbrev pub Expires : Form → List MonitoredCertificateInfo → Type 0
Expires form [] = Unit
Expires form (info ∷ infos) = (info.expires_at.form ≡ form) × Expires form infos

-- A status as it is decoded from JSON: times are local, and an empty list was left out.
abbrev pub IsDecoded : Option (List MonitoredCertificateInfo) → Type 0
IsDecoded none = Unit
IsDecoded (some []) = ⊥
IsDecoded (some (info ∷ infos)) = Expires local (info ∷ infos)

info-differs :
    (a b : MonitoredCertificateInfo)
    → a.expires_at.form ≡ local
    → b.expires_at.form ≡ utc
    → DeepEqual.info a b ≡ false
unfolding DeepEqual.info
info-differs a b p q = ground arith

certificates-differs :
    (old : Option (List MonitoredCertificateInfo)) (new : List MonitoredCertificateInfo)
    → IsDecoded old
    → Expires utc new
    → DeepEqual.certificates old (some new) ≡ false
unfolding DeepEqual.certificates
certificates-differs none new d e = refl
certificates-differs (some []) new d e = absurd d
certificates-differs (some (a ∷ olds)) [] d e = refl
certificates-differs (some (a ∷ olds)) (b ∷ news) (p, ps) (q, qs) =
    ground (arith, info-differs a b p q)

-- A status that was decoded from the server's JSON is always written again, with news or without,
-- where the new expiry times are in UTC: the test for a change never finds that nothing has
-- changed.
pub must_update-decoded :
    (original : Status) (new : List MonitoredCertificateInfo) (now : Time) (sent : Bool)
    → IsDecoded original.monitored_certificates
    → Expires utc new
    → must_update original (desired_status original new now sent) sent ≡ true
unfolding must_update meaningful_change desired_status DeepEqual.status
must_update-decoded original new now sent d e =
    ground (arith, certificates-differs original.monitored_certificates new d e)
