-- ===== src/ServiceRouter/Registry/Registration/Versions.antt =====
-- The version of a configuration, which tells processes to read it again.
use text.Mathlib.TextLemmas.{append_cancel_left}
use text.Mathlib.TextEquality.{eq_iff}
use laser_db.Base.{
  ℕ, String, ◌≡◌, sym, ap, ◌∙◌, ◌≢◌, Bool, true, false, Option, none, some, [], arith,
  if◌then◌else◌, nat_eq, string_eq, ==_refl,
}
use laser_db.Base.Maps.{lookup}
use laser_db.ServiceRouter.Server.{Server, ServiceRouterConfig}
use laser_db.ServiceRouter.Node.{get_config_path, get_config_version_path, get_router_config_path}
use laser_db.ServiceRouter.Registry.{
  Consul, Format, ConsulRegistry, check_config_update, get_config,
}
use laser_db.ServiceRouter.Registry.Registration.{
  RegistryError, store_failed, put_router_config, update_config_version,
}

-- What Consul documents of a put: it changes no other key.
abbrev pub IsKeyed : Consul → Type 0
IsKeyed consul =
    (store : consul.Store) (k v j : String)
    → j ≢ k
    → consul.get (consul.put store k v).0 j ≡ consul.get store j

version-router : (name : String) → get_config_version_path name ≢ get_router_config_path name
unfolding get_config_version_path get_router_config_path
version-router name e = ground (
  arith,
  (eq_iff "version" "router").1 (append_cancel_left (get_config_path name) "version" "router" e),
)

abbrev put_outcome :
    (consul : Consul) → consul.Store → consul.Store × Bool → consul.Store × Option RegistryError
put_outcome consul failed r = if r.1 then (r.0, none) else (failed, some store_failed)

success_store :
    (consul : Consul) (written failed : consul.Store) (r : consul.Store × Bool)
    → put_outcome consul failed r ≡ (written, none)
    → written ≡ r.0
success_store consul written failed (s, true) e = sym (ap (λ x. x.0) e)
success_store consul written failed (s, false) e = ground (arith, ap (λ x. x.1) e)

put_router_config_store :
    (consul : Consul) (format : Format) (store written : consul.Store) (now : ℕ) (server : Server)
    (config : ServiceRouterConfig)
    → put_router_config consul format store now server config ≡ (written, none)
    → written
      ≡ (consul.put store
          (get_router_config_path server.service_name)
          (format.marshal_config config)).0
unfolding put_router_config
put_router_config_store consul format store written now server config e =
    success_store consul written
      (update_config_version consul format
        (consul.put store (get_router_config_path server.service_name)
          (format.marshal_config config)).0
        now server).0
      (consul.put store (get_router_config_path server.service_name) (format.marshal_config config))
      e

get_config_unchanged :
    (consul : Consul) (format : Format) (cr : ConsulRegistry) (store : consul.Store)
    (name version : String)
    → lookup name cr.config_versions ≡ some version
    → consul.get store (get_config_version_path name) ≡ some (some version)
    → get_config format consul cr store name ≡ (cr, [])
unfolding get_config check_config_update
get_config_unchanged consul format cr store name version seen current =
    ground (arith, seen, current, ==_refl version)

-- `PutRouterConfig` does not write the version where it succeeds: a process that has read the
-- current version is not notified of the new configuration by its next pull.
pub get_config-put_router_config :
    (consul : Consul) (format : Format) (cr : ConsulRegistry) (store written : consul.Store)
    (now : ℕ) (server : Server) (config : ServiceRouterConfig) (version : String)
    → IsKeyed consul
    → put_router_config consul format store now server config ≡ (written, none)
    → lookup server.service_name cr.config_versions ≡ some version
    → consul.get store (get_config_version_path server.service_name) ≡ some (some version)
    → get_config format consul cr written server.service_name ≡ (cr, [])
get_config-put_router_config consul format cr store written now server config version keyed done
      seen current =
    get_config_unchanged consul format cr written server.service_name version seen (
      ap (λ s. consul.get s (get_config_version_path server.service_name))
        (put_router_config_store consul format store written now server config done)
      ∙ keyed store (get_router_config_path server.service_name) (format.marshal_config config)
          (get_config_version_path server.service_name) (version-router server.service_name)
      ∙ current)
