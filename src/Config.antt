-- ===== src/Config.antt =====
-- The node's configuration (node/config.py) as a function of its environment. `int`, `float`,
-- `str.lower`, the host's name and the directory of the repository are arguments.
pub mod Info
pub mod Tables
use meshlink_node.Prelude.{
  Bool, Dict, List, Option, Text, [], codes, get, if◌then◌else◌, inl, inr, ltb, negsuc, none,
  or_default, pos, put, some, suc, zero, ℕ, ℤ, ◌%◌, ◌++◌, ◌+◌, ◌/◌, ◌==◌, ◌∷◌, ◌⊎◌, nat_eq, list_eq,
  int_eq, ◌>>=◌,
}
use meshlink_node.Strings.{strip, partition, rpartition, split}

abbrev Environment : Type 0
Environment = Dict Text Text

-- str of a natural number: its digits, on enough fuel.
unfoldable pub digits : ℕ → ℕ → Text
digits zero n = []
digits (suc fuel) n =
    let rest = digits fuel (n / 10) in
    if ltb n 10 then (b'0' + n) ∷ [] else rest ++ (b'0' + n % 10) ∷ []

unfoldable pub str_of_nat : ℕ → Text
unfolding digits
str_of_nat n = digits (suc n) n

unfoldable pub str_of_int : ℤ → Text
unfolding str_of_nat
str_of_int (pos n) = str_of_nat n
str_of_int (negsuc n) = b'-' ∷ str_of_nat (suc n)

-- os.environ.get, of a variable with the node's prefix
abbrev env : Environment → Text → Option Text
env e name = get e (codes "MESHLINK_" ++ name)

-- `... if value else ...`: an empty value counts as none.
abbrev pub nonempty : Option Text → Option Text
nonempty none = none
nonempty (some []) = none
nonempty (some (c ∷ t)) = some (c ∷ t)

-- What parse_addr and parse_zone_table need of Python: `int` of a text, where `none` is a ValueError.
module _ (int_of_text : Text → Option ℤ) where
  -- With a port that `int` reads, negative ones too; the ValueError is `none`.
  unfoldable pub parse_addr : Text → Option (Text ⊎ (Text × ℤ))
  unfolding strip rpartition
  parse_addr t = elim (rpartition b':' (strip t)) [
    | none ↦ some (inl (strip t))
    | some (h, port) ↦ elim (int_of_text port) [ none ↦ none | some n ↦ some (inr (h, n)) ]
  ]

  unfoldable pub read_pair :
      Dict ℤ (Text ⊎ (Text × ℤ)) → Text × Text → Option (Dict ℤ (Text ⊎ (Text × ℤ)))
  unfolding parse_addr
  read_pair table (zone, addr) = elim (int_of_text zone) [
    | none ↦ none
    | some z ↦ elim (parse_addr addr) [ none ↦ none | some a ↦ some (put table z a) ]
  ]

  -- One turn of the loop, on a stripped entry.
  unfoldable pub read_entry :
      Dict ℤ (Text ⊎ (Text × ℤ)) → Text → Option (Dict ℤ (Text ⊎ (Text × ℤ)))
  unfolding read_pair partition
  read_entry table [] = some table
  read_entry table (c ∷ t) = read_pair table (or_default (partition b'=' (c ∷ t)) (c ∷ t, []))

  unfoldable pub read_entries :
      Dict ℤ (Text ⊎ (Text × ℤ)) → List Text → Option (Dict ℤ (Text ⊎ (Text × ℤ)))
  unfolding read_entry
  read_entries table [] = some table
  read_entries table (entry ∷ es) = elim (read_entry table (strip entry)) [
    | none ↦ none
    | some table' ↦ read_entries table' es
  ]

  unfoldable pub parse_zone_table : Text → Option (Dict ℤ (Text ⊎ (Text × ℤ)))
  unfolding split read_entries
  parse_zone_table t = read_entries [] (split b',' t)

pub record Settings (F : Type 0) : Type 0 where
  pub node_zone_id : ℤ
  pub node_zone_name : Text
  pub backhaul_udp_port : ℤ
  pub backhaul_broadcast_addr : Text ⊎ (Text × ℤ)
  pub backhaul_zone_table : Option (Dict ℤ (Text ⊎ (Text × ℤ)))
  pub backhaul_advertise_addr : Text ⊎ (Text × ℤ)
  pub zone_entry_ttl_s : F
  pub backend_channel : Text
  pub backend_url : Text
  pub event_id : Text
  pub organiser_pubkey : Option Text
  pub organiser_key_cache : Text
  pub node_id : Text
  pub heartbeat_interval_s : F
  pub node_identity_path : Text
  pub directory_cache : Text
  pub location_query_min_interval_s : F
  pub phone_ping_interval_s : F
  pub phone_ping_connect_delay_s : F
  pub node_info_path : Text
  pub wifi_listen : Text
  pub wifi_ap_provision : Text

-- Python and the machine: `int` and `float` of a text, where `none` is a ValueError, `str.lower`,
-- socket.gethostname(), whether sys.platform is "darwin", and the directory of the repository.
pub record Machine (F : Type 0) : Type 0 where
  pub int_of_text : Text → Option ℤ
  pub float_of_text : Text → Option F
  pub lower : Text → Text
  pub hostname : Text
  pub darwin : Bool
  pub root : Text

unfoldable pub backend_channel_of : Bool → Text → Text
backend_channel_of darwin set =
    if set == codes "auto" then if darwin then codes "wifi_lan" else codes "batman" else set

unfoldable pub backend_url_of : Text → Text → Text → Text
backend_url_of channel batman base = if channel == codes "batman" then batman else base

module _ {F : Type 0} (m : Machine F) where
  abbrev or_env : Environment → Text → Text → Text
  or_env e name default = or_default (env e name) default

  -- parse_addr of a variable, or a default where it is missing or empty
  unfoldable pub addr_env : Environment → Text → Text → Option (Text ⊎ (Text × ℤ))
  unfolding parse_addr
  addr_env e name default = elim (nonempty (env e name)) [
    | none ↦ some (inl default)
    | some t ↦ parse_addr m.int_of_text t
  ]

  unfoldable pub zone_table_env : Environment → Option (Option (Dict ℤ (Text ⊎ (Text × ℤ))))
  unfolding parse_zone_table
  zone_table_env e = elim (nonempty (env e (codes "ZONE_TABLE"))) [
    | none ↦ some none
    | some t ↦ elim (parse_zone_table m.int_of_text t) [
      | none ↦ none
      | some table ↦ some (some table)
    ]
  ]

  abbrev in_root : Environment → Text → Text → Text
  in_root e name file = or_env e name (m.root ++ codes "/" ++ file)

  -- The module up to the node's info; the ValueError of a setting is `none`.
  unfoldable pub settings : Environment → Option (Settings F)
  unfolding addr_env zone_table_env backend_channel_of backend_url_of str_of_int
  settings e = do
    zone ← m.int_of_text (or_env e (codes "ZONE_ID") (codes "1"))
    port ← m.int_of_text (or_env e (codes "BACKHAUL_PORT") (codes "19788"))
    table ← zone_table_env e
    broadcast ← addr_env e (codes "BACKHAUL_BROADCAST_ADDR") (codes "10.77.0.255")
    advertise ← addr_env e (codes "BACKHAUL_ADVERTISE_ADDR") (codes "10.77.0." ++ str_of_int zone)
    ttl ← m.float_of_text (or_env e (codes "ZONE_ENTRY_TTL_S") (codes "180"))
    heartbeat ← m.float_of_text (or_env e (codes "HEARTBEAT_INTERVAL_S") (codes "60"))
    query ← m.float_of_text (or_env e (codes "LOCATION_QUERY_MIN_INTERVAL_S") (codes "60"))
    ping ← m.float_of_text (or_env e (codes "PHONE_PING_INTERVAL_S") (codes "90"))
    delay ← m.float_of_text (or_env e (codes "PHONE_PING_CONNECT_DELAY_S") (codes "3"))
    some (
        let channel =
          backend_channel_of m.darwin
            (m.lower (or_env e (codes "BACKEND_CHANNEL") (codes "auto"))) in
        record {
          node_zone_id = zone;
          node_zone_name = or_env e (codes "ZONE_NAME") (codes "Zone " ++ str_of_int zone);
          backhaul_udp_port = port;
          backhaul_broadcast_addr = broadcast;
          backhaul_zone_table = table;
          backhaul_advertise_addr = advertise;
          zone_entry_ttl_s = ttl;
          backend_channel = channel;
          backend_url =
              backend_url_of channel
                (or_env e (codes "BACKEND_BATMAN_URL") (codes "http://10.77.0.254:8000"))
                (or_env e (codes "BACKEND_URL") (codes "http://127.0.0.1:8000"));
          event_id = or_env e (codes "EVENT_ID") (codes "test-event-001");
          organiser_pubkey = env e (codes "ORGANISER_PUBKEY");
          organiser_key_cache =
              in_root e (codes "ORGANISER_KEY_CACHE") (codes "organiser_pubkey.hex");
          node_id = or_env e (codes "NODE_ID") m.hostname;
          heartbeat_interval_s = heartbeat;
          node_identity_path = in_root e (codes "NODE_IDENTITY") (codes "node_identity.json");
          directory_cache = in_root e (codes "DIRECTORY_CACHE") (codes "directory_cache.json");
          location_query_min_interval_s = query;
          phone_ping_interval_s = ping;
          phone_ping_connect_delay_s = delay;
          node_info_path = in_root e (codes "NODE_INFO") (codes "node_info.json");
          wifi_listen = or_env e (codes "WIFI_LISTEN") (codes "10.78.0.1:7800");
          wifi_ap_provision = m.lower (or_env e (codes "AP_PROVISION") (codes "auto"));
        })
