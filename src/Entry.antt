-- ===== src/Entry.antt =====
-- The node's main function (node/main.py): what is started and stopped, in which order.
pub mod Lifecycle
pub mod Wiring
pub mod Boot
pub mod Arrivals
pub mod Platform
use meshlink_node.Prelude.{
  Bool, List, Option, Text, [], ap, codes, false, if◌then◌else◌, inl, inr, none, some, true, ℕ, ℤ,
  ◌++◌, ◌==◌, ◌∷◌, ◌⊎◌, nat_eq, list_eq,
}
use meshlink_node.Config.{parse_addr}

pub data Service : Type 0 where
  backhaul : Service
  zone_sync : Service
  relay : Service
  phone_ping : Service
  directory : Service
  heartbeat : Service
  backend_proxy : Service
  access_point : Service

pub data Action : Type 0 where
  starts : Service → Action
  serves : Action
  stops : Service → Action

-- What becomes of MESHLINK_WIFI_LISTEN: no WiFi, a host and a port, or the ValueError of unpacking a
-- bare host, unless that has two characters.
pub data Listen : Type 0 where
  off : Listen
  at : Text → ℤ → Listen
  at_letters : ℕ → ℕ → Listen
  raises : Listen

abbrev unpack : Text ⊎ (Text × ℤ) → Listen
unpack (inr (h, p)) = at h p
unpack (inl (c ∷ d ∷ [])) = at_letters c d
unpack (inl _) = raises

unfoldable pub wifi_listen_of : (Text → Option ℤ) → (Text → Text) → Text → Listen
unfolding parse_addr
wifi_listen_of int_of_text lower t =
    if lower t == codes "off"
    then off
    else elim (parse_addr int_of_text t) [ none ↦ raises | some a ↦ unpack a ]

abbrev pub start_order : List Service
start_order = backhaul ∷ zone_sync ∷ relay ∷ phone_ping ∷ directory ∷ heartbeat ∷ []

-- The `finally` block, with whether there is a provisioner
abbrev pub stop_order : Bool → List Service
stop_order ap =
    heartbeat
    ∷ backend_proxy
    ∷ directory
    ∷ phone_ping
    ∷ relay
    ∷ zone_sync
    ∷ backhaul
    ∷ (if ap then access_point ∷ [] else [])

-- Calls in order, up to the first that raises, and whether all returned.
unfoldable pub call_all : (Service → Action) → (Service → Bool) → List Service → List Action × Bool
call_all act fails [] = ([], true)
call_all act fails (s ∷ ss) =
    let (as', ok) = call_all act fails ss in
    if fails s then (act s ∷ [], false) else (act s ∷ as', ok)

-- How the server's loop ends: it returns, by the KeyboardInterrupt of a SIGINT, by another exception, or
-- by a SIGTERM, for which there is no handler.
pub data Ending : Type 0 where
  loop_returns : Ending
  interrupted : Ending
  loop_raises : Ending
  terminates : Ending

-- Whether `finally` runs; a SIGTERM ends the process where it is.
unfoldable pub unwinds : Ending → Bool
unwinds terminates = false
unwinds _ = true

-- From `backhaul.start()` on.
unfoldable pub lifecycle : Bool → (Service → Bool) → (Service → Bool) → Ending → List Action
unfolding call_all unwinds
lifecycle ap start_fails stop_fails ending =
    let (started, ok) = call_all starts start_fails start_order in
    let stopping = if unwinds ending then (call_all stops stop_fails (stop_order ap)).0 else [] in
    started ++ (if ok then serves ∷ stopping else [])
