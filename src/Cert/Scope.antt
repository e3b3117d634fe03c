-- ===== src/Cert/Scope.antt =====
-- The filter of sendAggregatedNotifications with its cache, against the plain one.
use nacho_operators.Common.{
  String, ◌≡◌, refl, eq_iff, Bool, Option, none, some, [], ◌∷◌, ap, keep, arith,
}
use nacho_operators.Common.Dict
use nacho_operators.Common.Dict.{Dict, lookup-insert}
use nacho_operators.Cert.Types.{MonitoredCertificateInfo}
use nacho_operators.Cert.Services.{Services}
use nacho_operators.Cert.Notify.{Infos, is_in_scope, scope_loop}

module _ (S : Services) (selector : S.Selector) (w : S.World) where
  abbrev pub is_info_in_scope : MonitoredCertificateInfo → Bool
  is_info_in_scope info = is_in_scope S selector w info.namespace

  -- What the cache holds is what a look at the namespace would give.
  abbrev Agrees : Dict Bool → Type 0
  Agrees cache =
      (namespace : String) (cached : Bool)
      → Dict.lookup namespace cache ≡ some cached
      → cached ≡ is_in_scope S selector w namespace

  insert-Agrees :
      (namespace : String) (cache : Dict Bool)
      → Agrees cache
      → Agrees (Dict.insert namespace (is_in_scope S selector w namespace) cache)
  insert-Agrees namespace cache h asked cached p = ground (
    arith,
    lookup-insert namespace asked (is_in_scope S selector w namespace) cache,
    eq_iff namespace asked,
    h asked cached,
    ap (is_in_scope S selector w),
  )

  scope_loop-Agrees :
      (infos : Infos) (cache : Dict Bool)
      → Agrees cache
      → scope_loop S selector w cache infos ≡ keep is_info_in_scope infos
  unfolding scope_loop
  scope_loop-Agrees [] cache h = refl
  scope_loop-Agrees (info ∷ infos) cache h =
      by_cache (Dict.lookup info.namespace cache) refl (scope_loop-Agrees infos)
    where
      by_cache :
          (o : Option Bool)
          → Dict.lookup info.namespace cache ≡ o
          → ((known : Dict Bool)
              → Agrees known
              → scope_loop S selector w known infos ≡ keep is_info_in_scope infos)
          → scope_loop S selector w cache (info ∷ infos) ≡ keep is_info_in_scope (info ∷ infos)
      by_cache (some cached) p ih = ground (arith, ih cache h, h info.namespace cached p)
      by_cache none p ih = ground (arith, ih _ (insert-Agrees info.namespace cache h))

  empty-Agrees : Agrees []
  unfolding Dict.lookup
  empty-Agrees namespace cached p = absurd (ground arith)

  -- The cache of namespaces changes nothing: what is in scope of a notification are the
  -- certificates whose namespace can be read and matches the selector, in their order.
  pub scope_loop-keep :
      (infos : Infos) → scope_loop S selector w [] infos ≡ keep is_info_in_scope infos
  scope_loop-keep infos = scope_loop-Agrees infos [] empty-Agrees
