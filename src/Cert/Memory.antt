-- ===== src/Cert/Memory.antt =====
-- A cluster in memory with a web server and a mail server, at which the theorems are applied. JSON
-- and PEM are the text itself; a certificate's text is its subject.
use nacho_operators.Common.{
  ℕ, String, ◌==◌, ◌&&◌, Option, none, some, List, [], ◌∷◌, if◌then◌else◌, errorf, ok,
  NamespacedName, arith,
}
use nacho_operators.Common.Dict
use nacho_operators.Common.Dict.{Dict}
use nacho_operators.Common.InMemory.{found, is_not_found, ignore_not_found, plain_labels}
use nacho_operators.Cert.Types.{utc, clock, CertificateMonitor, Secret, Certificate, Request, Mail}
use nacho_operators.Cert.Services.{Services}
use nacho_operators.Cert.Utc.{ParsesUtc}

pub record Cluster : Type 0 where
  pub nanoseconds : ℕ
  pub monitor : CertificateMonitor
  pub secrets : List Secret
  pub namespaces : Dict (Dict String)
  pub requests : List Request
  pub mails : List Mail

abbrev secret_named : NamespacedName → List Secret → Option Secret
secret_named key [] = none
secret_named key (s ∷ secrets) =
    if (s.namespace == key.namespace) && (s.name == key.name)
    then some s
    else secret_named key secrets

-- One certificate to each text; it expires a hundred days after the start of time.
abbrev certificate : String → Certificate
certificate text = record {
  not_after = record { instant = 8_640_000_000_000_000; form = utc };
  subject_cn = text;
  issuer_cn = "ca";
}

abbrev pub memory : Services
memory = record {
  World = Cluster;
  now = λ c. record { instant = c.nanoseconds; form = clock };
  labels = plain_labels;
  is_not_found = is_not_found;
  ignore_not_found = ignore_not_found;
  get_monitor = λ key c. ok c.monitor;
  list_secrets = λ c. ok c.secrets;
  get_secret = λ key c. found (secret_named key c.secrets);
  get_namespace_labels = λ name c. found (Dict.lookup name c.namespaces);
  status_update = λ m c. (ok tt, record c { monitor = record c.monitor { status = m.status } });
  retry_on_conflict = λ call. call;
  pem_decode = λ text. if text == "" then none else some text;
  parse_certificate = λ bytes. ok (certificate bytes);
  marshal_text = λ text. ok text;
  marshal_alert = λ payload. ok payload.message;
  new_request = λ url. if url == "" then some (errorf "empty url") else none;
  http_do = λ request c.
      (ok (record { status_code = 200; body = "" }), record c { requests = request ∷ c.requests });
  send_mail = λ mail c. (ok tt, record c { mails = mail ∷ c.mails });
}

pub memory-ParsesUtc : ParsesUtc memory
memory-ParsesUtc bytes cert e = ground arith
