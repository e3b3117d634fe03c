-- ===== src/Kafka/Storing.antt =====
-- The status that a reconciliation leaves in the cluster.
use nacho_operators.Common.{
  String, ◌≡◌, refl, ap, ◌∙◌, ◌↔◌, inl, inr, none, some, List, [], ◌∷◌, map, length, Any, arith,
  Result, ok, err, NamespacedName,
}
use nacho_operators.Common.Meta.{clock}
use nacho_operators.Kafka.Types.{Status, KafkaAccessQuery, Pod}
use nacho_operators.Kafka.Services.{Services}
use nacho_operators.Kafka.Discovery.{find_pods}
use nacho_operators.Kafka.Inspect.{Slices, Infos}
use nacho_operators.Kafka.Reconcile.{
  current_status, resolve_info, pods_to_report, tenants, scan_duration, write_status, reconcile,
}
use nacho_operators.Kafka.PodEntries.{IsOf}
use nacho_operators.Kafka.Sightings.{UsesThere, inspect_pods_iff}
use nacho_operators.Kafka.Publishing.{IsStored, seen_in, analyzed, reconcile-writes}
use nacho_operators.Kafka.Uniques.{CountsOnce, count_unique_pods-CountsOnce}
use nacho_operators.Kafka.Untouched.{report-stored, log_events-stored, write_status-stored}
use nacho_operators.Kafka.Server.{Stored, pod_key, kept, IsServer}

keys-resolve_info :
    (slices : Slices) (infos : Infos)
    → map pod_key (map (resolve_info slices) infos) ≡ map pod_key infos
unfolding resolve_info
keys-resolve_info slices [] = refl
keys-resolve_info slices (info ∷ infos) =
    ap (λ keys. pod_key info ∷ keys) (keys-resolve_info slices infos)

module _ (S : Services) (V : IsServer S) where
  open S use {World}

  module _ (w : World) (namespace name : String) where
    abbrev Named : List (String × String) → Type 0
    Named = Any (λ k. k ≡ (namespace, name))

    keys→ : (infos : Infos) → Named (map pod_key infos) → Any (IsOf S w namespace name) infos
    keys→ [] h = absurd h
    keys→ (info ∷ infos) (inl h) = inl (ap (λ k. k.0) h, ap (λ k. k.1) h)
    keys→ (info ∷ infos) (inr h) = inr (keys→ infos h)

    keys← : (infos : Infos) → Any (IsOf S w namespace name) infos → Named (map pod_key infos)
    keys← [] h = absurd h
    keys← (info ∷ infos) (inl (e, f)) =
        inl (ap (λ n. (n, info.pod_name)) e ∙ ap (λ n. (namespace, n)) f)
    keys← (info ∷ infos) (inr h) = inr (keys← infos h)

  module _ (key : NamespacedName) (w : World) (query : KafkaAccessQuery) (pods : List Pod)
      (read : S.get_query key w ≡ ok query)
      (listed : find_pods S query.spec.namespace_selector query.spec.pod_selector w ≡ ok pods)
      (time : IsStored query.status.last_update_time) (monotonic : (S.now w).form ≡ clock) where
    abbrev written : Status
    written =
        current_status query (S.now w) (length pods) (seen_in S query pods w).infos
          (analyzed S query pods w).0

    reconcile-kept :
        (reconcile S key w).0.error ≡ none → V.stored (reconcile S key w).1 ≡ kept written
    unfolding current_status
    reconcile-kept h = by_write (write_status S key written (analyzed S query pods w).1).0 refl
      where
        by_write :
            (r : Result (Unit {0}))
            → (write_status S key written (analyzed S query pods w).1).0 ≡ r
            → V.stored (reconcile S key w).1 ≡ kept written
        by_write (err e) p =
            let failed : some e ≡ none =
              rw (reconcile-writes S key w read listed time monotonic, p) at h in
            absurd (ground arith)
        by_write (ok u) p =
            rw (reconcile-writes S key w read listed time monotonic, p)
              (log_events-stored S V written.accessing_pods _
                ∙ report-stored S V
                    (pods_to_report (seen_in S query pods w).slices (seen_in S query pods w).infos)
                    _
                ∙ write_status-stored S V key written (analyzed S query pods w).1 p)

    -- A reconciliation that returns no error leaves a status in the cluster that counts the pods that
    -- were listed, counts each pod that it has an entry for once, and has an entry for a pod name
    -- exactly if one of the listed pods of that name is running, is not being deleted and uses Kafka:
    -- a container of it, an init container included, has a variable that is searched, whose value,
    -- its own or that of a readable config map, is not empty; or a readable config map other than
    -- "cadence" that it mounts has a YAML file in which the rules find brokers. The query can be read
    -- and its pods can be listed, the times of its stored status were decoded from JSON, the current
    -- one has a monotonic reading, and the server is as in IsServer.
    pub reconcile-stores :
        (reconcile S key w).0.error ≡ none
        → let stored : Stored = V.stored (reconcile S key w).1 in
          (stored.total_pods_scanned ≡ length pods)
          × CountsOnce stored.pods stored.total_pods_with_kafka_access
          × ((namespace name : String)
              → Any (λ k. k ≡ (namespace, name)) stored.pods
                ↔ Any
                    (UsesThere S w query.spec
                      (tenants S w)
                      (scan_duration S query.spec)
                      namespace
                      name)
                    pods)
    unfolding current_status
    reconcile-stores h =
        let infos : Infos = (seen_in S query pods w).infos in
        let slices : Slices = (analyzed S query pods w).0 in
        rw (reconcile-kept h, keys-resolve_info slices infos)
          (
            refl,
            count_unique_pods-CountsOnce infos,
            λ namespace name.
                let (there, back) =
                  inspect_pods_iff S w query.spec (tenants S w) (scan_duration S query.spec)
                    namespace name pods in
                (
                  (λ a. there (keys→ w namespace name infos a)),
                  (λ u. keys← w namespace name infos (back u)),
                ),
          )
