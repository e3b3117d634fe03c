-- ===== src/Cert/Tests/Days.antt =====
-- Several reconciliations over the cluster in memory.
use nacho_operators.Cert.Reconcile.{monitor_secrets, publish, write_status}
use nacho_operators.Cert.DeepEqual
use nacho_operators.Cert.Status.{meaningful_change}
use nacho_operators.Cert.Scan.{process_secret, add_found, collect, process_entries}
use nacho_operators.Cert.Notify.{notify_email, notify_opsgenie, notify_webhook, scoped}
use nacho_operators.Cert.Notifications.{post, send_aggregated_email_notification, is_success}
use nacho_operators.Cert.Server.{IsServer}
use nacho_operators.Cert.Quiet.{reconciles, changes, Steps, stop, after, Steps-sent}
use nacho_operators.Cert.Recording.{reconcile-Steps}
use nacho_operators.Common.{length, inl, ◌*◌, ◌+◌, ◌≡◌, refl, [], arith, ok, hour}
use nacho_operators.Common.Dict
use nacho_operators.Common.Float.{round, to_nearest}
use nacho_operators.Common.Strings.{has_suffix}
use nacho_operators.Cert.Types.{CertificateMonitor}
use nacho_operators.Cert.Selectors.{
  list_all_secrets, selector_of, prepare_selectors, matches_namespace, matches_selectors,
}
use nacho_operators.Cert.Scan.{day, days_until, whole_days, certificate_info, inspect, scan}
use nacho_operators.Cert.Status.{desired_status, must_update}
use nacho_operators.Cert.Notifications.{send_aggregated_webhook_notification}
use nacho_operators.Cert.Notify.{
  is_in_scope, scope_loop, notification_scope, send_aggregated_notifications,
}
use nacho_operators.Cert.Reconcile.{is_cooling_down, notify, reconcile}
use nacho_operators.Cert.Memory.{Cluster, memory, memory-ParsesUtc}
use nacho_operators.Cert.Tests.Data.{key, info_on, warm, cooling}

pub read_time :
    {a b : CertificateMonitor}
    → ok a ≡ ok b
    → b.status.last_notification_time ≡ a.status.last_notification_time
read_time e = cc

abbrev pub memory_server : IsServer memory key
memory_server = record {
  stored_time = λ c. c.monitor.status.last_notification_time;
  get_monitor-stored_time = λ w e. read_time e;
  status_update-stored_time = λ m w. inl (λ s h. h);
  status_update_accepted = λ m w e s h. h;
  sent = λ c. length c.requests + length c.mails;
  http_do-sent = λ r w. omega arith;
  send_mail-sent = λ m w. omega arith;
  status_update-sent = λ m w. refl;
  pause = λ w. w;
  pause-stored_time = λ w. refl;
  pause-sent = λ w. refl;
  retry-last = λ P Q call keeps pauses last w p. last w p;
}

abbrev later : Cluster
later = record cooling { nanoseconds = 80 * day + 20 * hour }

abbrev steps : Steps memory key memory_server 6_912_000 cooling (reconcile memory key later).1
steps = after (changes cooling later refl refl) (after (reconciles later (omega arith)) (stop _))

Steps-sent_example : memory_server.sent (reconcile memory key later).1 ≡ memory_server.sent cooling
Steps-sent_example = Steps-sent memory key memory_server 6_912_000 (omega arith) steps

-- What the notification of day 80 leaves, and an hour later.
abbrev left : Cluster
left = (reconcile memory key warm).1

abbrev an_hour_later : Cluster
an_hour_later = record left { nanoseconds = 80 * day + hour }

left_steps : Steps memory key memory_server 6_912_000 left (reconcile memory key an_hour_later).1
left_steps =
    after (changes left an_hour_later refl refl)
      (after (reconciles an_hour_later (omega arith)) (stop _))

reconcile-Steps_example :
    memory_server.sent (reconcile memory key an_hour_later).1 ≡ memory_server.sent left
unfolding reconcile list_all_secrets prepare_selectors selector_of monitor_secrets publish
    must_update DeepEqual.status desired_status DeepEqual.certificates meaningful_change
    write_status notify scan process_secret matches_selectors matches_namespace DeepEqual.info post
    send_aggregated_email_notification send_aggregated_webhook_notification is_in_scope
    notification_scope notify_email notify_opsgenie notify_webhook scope_loop scoped
    send_aggregated_notifications is_cooling_down add_found certificate_info collect days_until
    whole_days round to_nearest inspect process_entries has_suffix Dict.insert Dict.lookup
    is_success
reconcile-Steps_example =
    reconcile-Steps memory key memory_server memory-ParsesUtc 6_912_000 warm
      {w' = (reconcile memory key an_hour_later).1} {m = warm.monitor} {info = info_on 20}
      {infos = []} refl refl refl tt refl refl refl (omega arith) left_steps

left_sent : memory_server.sent left ≡ 2
unfolding reconcile list_all_secrets prepare_selectors selector_of monitor_secrets publish
    must_update DeepEqual.status desired_status DeepEqual.certificates meaningful_change
    write_status notify scan process_secret matches_selectors matches_namespace DeepEqual.info post
    send_aggregated_email_notification send_aggregated_webhook_notification is_in_scope
    notification_scope notify_email notify_opsgenie notify_webhook scope_loop scoped
    send_aggregated_notifications is_cooling_down add_found certificate_info collect days_until
    whole_days round to_nearest inspect process_entries has_suffix Dict.insert Dict.lookup
    is_success
left_sent = refl
