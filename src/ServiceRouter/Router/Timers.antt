-- ===== src/ServiceRouter/Router/Timers.antt =====
-- router.go, `ConfigNotify` and the pushers: which timers a new configuration reloads.
use text.Mathlib.TextLemmas.{append_cancel_left, append-nil, cons-ne-nil}
use text.Mathlib.TextEquality.{eq_iff}
use Prim.Native.String.append
use Prim.Native.String.{◌++◌ as ◌⧺◌}
use laser_db.Base.{
  ℕ, String, ◌≡◌, refl, sym, ap, ◌∙◌, ◌≢◌, inl, inr, none, some, List, [], ◌∷◌, map, arith, Outcome,
  returned, panicked, running, ◌>>=◌, All, ltb, nat_beq, if◌then◌else◌, Bool-cases, ◌==◌, nat_eq,
  string_eq,
}
use laser_db.Base.Maps.{lookup, insert}
use laser_db.ServiceRouter.Server.{Server, ServiceRouterConfig}
use laser_db.ServiceRouter.Node.{decimal}
use laser_db.ServiceRouter.Ticking.{Timer, new_timer, reload, calculate_interval, calculate_ttl}

pub record RouterTimers : Type 0 where
  pub config_pullers : List (String × Timer)
  pub discover_pullers : List (String × Timer)
  pub service_pushers : List (String × Timer)

-- `getServiceKey` of the router.
abbrev address_part : Server → String
address_part server = "::" ⧺ (server.host ⧺ (":" ⧺ decimal server.port))

unfoldable pub get_pusher_key : Server → String
unfolding decimal
get_pusher_key server = server.service_name ⧺ address_part server

-- `GetOrCreateServicePusher`, with the router configuration of the service.
unfoldable pub get_or_create_service_pusher :
    RouterTimers → Server → ServiceRouterConfig → Outcome RouterTimers
unfolding get_pusher_key lookup insert new_timer calculate_ttl
get_or_create_service_pusher r server config =
    elim (lookup (get_pusher_key server) r.service_pushers) [
      | some pusher ↦ returned r
      | none ↦ new_timer (calculate_ttl config.ttl_in_ms) >>= λ t.
          returned
            (record r { service_pushers = insert (get_pusher_key server) t r.service_pushers })
    ]

-- A timer that is there is reloaded where its period changed. The timers are shared by pointer, so
-- the map holds the reloaded one.
unfoldable pub reload_at : String → ℕ → List (String × Timer) → Outcome (List (String × Timer))
unfolding lookup insert reload
reload_at name period timers = elim (lookup name timers) [
  | none ↦ returned timers
  | some t ↦
      if nat_beq t.period period
      then returned timers
      else reload t period >>= λ u. returned (insert name u timers)
]

unfoldable pub reload_pullers : RouterTimers → String → ℕ → Outcome RouterTimers
unfolding reload_at
reload_pullers r name interval = reload_at name interval r.config_pullers >>= λ c.
    reload_at name interval r.discover_pullers >>= λ d.
    returned (record r { config_pullers = c; discover_pullers = d })

unfoldable pub notify_pullers : RouterTimers → String → ℕ → Outcome RouterTimers
unfolding reload_pullers
notify_pullers r name interval =
    if ltb 0 interval then reload_pullers r name interval else returned r

unfoldable pub reload_pushers : RouterTimers → String → ℕ → Outcome RouterTimers
unfolding reload_at
reload_pushers r name ttl =
    reload_at name ttl r.service_pushers >>= λ p. returned (record r { service_pushers = p })

unfoldable pub notify_pushers : RouterTimers → String → ℕ → Outcome RouterTimers
unfolding reload_pushers
notify_pushers r name ttl = if ltb 0 ttl then reload_pushers r name ttl else returned r

unfoldable pub config_notify : RouterTimers → String → ServiceRouterConfig → Outcome RouterTimers
unfolding notify_pullers notify_pushers calculate_interval calculate_ttl
config_notify r name config =
    if name == ""
    then returned r
    else notify_pullers r name (calculate_interval config.pull_interval) >>= λ q.
        notify_pushers q name (calculate_ttl config.ttl_in_ms)

get_pusher_key-name : (server : Server) → get_pusher_key server ≢ server.service_name
unfolding get_pusher_key
get_pusher_key-name server e = cons-ne-nil ":" (":" ⧺ (server.host ⧺ (":" ⧺ decimal server.port))) (
    sym (append.cons ":" ":" (server.host ⧺ (":" ⧺ decimal server.port)))
    ∙ append_cancel_left server.service_name (address_part server) ""
        (e ∙ sym (append-nil server.service_name)))

reload_at-none :
    (name : String) (period : ℕ) (m : List (String × Timer))
    → lookup name m ≡ none
    → reload_at name period m ≡ returned m
unfolding reload_at
reload_at-none name period m e = ground (arith, e)

pushers_of : Outcome RouterTimers → List (String × Timer) → List (String × Timer)
pushers_of (returned r) m = r.service_pushers
pushers_of panicked m = m
pushers_of running m = m

reload_pullers-pushers :
    (r : RouterTimers) (name : String) (interval : ℕ)
    → pushers_of (reload_pullers r name interval) r.service_pushers ≡ r.service_pushers
unfolding reload_pullers pushers_of
reload_pullers-pushers r name interval =
    both (reload_at name interval r.config_pullers) (reload_at name interval r.discover_pullers)
  where
    both :
        (c d : Outcome (List (String × Timer)))
        → pushers_of
            (c >>= λ x. d >>= λ y. returned (record r { config_pullers = x; discover_pullers = y }))
            r.service_pushers
          ≡ r.service_pushers
    both (returned x) (returned y) = refl
    both (returned x) panicked = refl
    both (returned x) running = refl
    both panicked d = refl
    both running d = refl

notify_pullers-pushers :
    (r : RouterTimers) (name : String) (interval : ℕ)
    → pushers_of (notify_pullers r name interval) r.service_pushers ≡ r.service_pushers
unfolding notify_pullers pushers_of
notify_pullers-pushers r name interval = elim (Bool-cases (ltb 0 interval)) [
  | inl e ↦ rw e (reload_pullers-pushers r name interval)
  | inr e ↦ rw e refl
]

notify_pushers-none :
    (r : RouterTimers) (name : String) (ttl : ℕ)
    → lookup name r.service_pushers ≡ none
    → pushers_of (notify_pushers r name ttl) r.service_pushers ≡ r.service_pushers
unfolding notify_pushers reload_pushers pushers_of
notify_pushers-none r name ttl e = elim (Bool-cases (ltb 0 ttl)) [
  | inl yes_ttl ↦ rw (yes_ttl, reload_at-none name ttl r.service_pushers e) refl
  | inr no_ttl ↦ rw no_ttl refl
]

-- The pushers of some servers of one service.
abbrev pub pushers_for : List (Server × Timer) → List (String × Timer)
pushers_for = map (λ e. (get_pusher_key e.0, e.1))

lookup-pushers_for :
    (name : String) (entries : List (Server × Timer))
    → All (λ e. e.0.service_name ≡ name) entries
    → lookup name (pushers_for entries) ≡ none
unfolding lookup
lookup-pushers_for name [] same = refl
lookup-pushers_for name ((server, t) ∷ entries) same = ground (
  arith,
  lookup-pushers_for name entries same.1,
  eq_iff (get_pusher_key server) name,
  λ (e : get_pusher_key server ≡ name). get_pusher_key-name server (e ∙ sym same.0),
)

then_pushers :
    (r : RouterTimers) (name : String) (ttl : ℕ) (o : Outcome RouterTimers)
    → pushers_of o r.service_pushers ≡ r.service_pushers
    → lookup name r.service_pushers ≡ none
    → pushers_of (o >>= λ q. notify_pushers q name ttl) r.service_pushers ≡ r.service_pushers
unfolding pushers_of
then_pushers r name ttl (returned q) kept e =
    ap (pushers_of (notify_pushers q name ttl)) (sym kept)
    ∙ notify_pushers-none q name ttl (ap (lookup name) kept ∙ e)
    ∙ kept
then_pushers r name ttl panicked kept e = refl
then_pushers r name ttl running kept e = refl

-- `ConfigNotify` looks pushers up by the name of the service, but they are kept by the name and the
-- address: where all pushers are for servers of one service, a new configuration of that service
-- reloads none of them, whatever time to live it sets.
pub config_notify-pushers :
    (r u : RouterTimers) (name : String) (entries : List (Server × Timer))
    (config : ServiceRouterConfig)
    → r.service_pushers ≡ pushers_for entries
    → All (λ e. e.0.service_name ≡ name) entries
    → config_notify r name config ≡ returned u
    → u.service_pushers ≡ r.service_pushers
unfolding config_notify pushers_of
config_notify-pushers r u name entries config shape same e =
    ap (λ o. pushers_of o r.service_pushers) (sym e) ∙ kept
  where
    kept : pushers_of (config_notify r name config) r.service_pushers ≡ r.service_pushers
    kept = elim (Bool-cases (name == "")) [
      | inl no_name ↦ rw no_name refl
      | inr some_name ↦ rw some_name (
          then_pushers r name (calculate_ttl config.ttl_in_ms)
            (notify_pullers r name (calculate_interval config.pull_interval))
            (notify_pullers-pushers r name (calculate_interval config.pull_interval))
            (ap (lookup name) shape ∙ lookup-pushers_for name entries same))
    ]
