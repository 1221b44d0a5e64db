-- ===== src/AccessPoint/Sharing.antt =====
-- The macOS backend of the access point (node/wifi_ap/internet_sharing.py). A property list is a value
-- of the Json module's type, whose `real` stands for all that is not a number, text, list or dict.
use meshlink_node.Prelude.{
  Bool, Bytes, Option, Text, codes, false, if◌then◌else◌, leb, none, not, pos, some, ℕ, ◌&&◌, ◌==◌,
  ◌||◌, nat_eq, list_eq,
}
use meshlink_node.Json.{is_false, Value, integer, text, object, Fields, no_fields, field, field_of}
use meshlink_node.AccessPoint.Deployment.{WifiDeploymentConfig}
use meshlink_node.AccessPoint.Hosting.{verify_consistency}

-- d[name] = v
unfoldable pub set_field : {F : Type 0} → Fields F → Text → Value F → Fields F
set_field no_fields name v = field name v no_fields
set_field (field key w fs) name v =
    let rest = set_field fs name v in if key == name then field key v fs else field key w rest

-- Integers of a property list
abbrev pub whole_number : {F : Type 0} → ℕ → Value F
whole_number n = integer (pos n)

-- The ValueError is `none`.
unfoldable pub build_nat_airport_dict : {F : Type 0} → WifiDeploymentConfig → ℕ → Option (Fields F)
build_nat_airport_dict config channel =
    if leb 1 channel && leb channel 13
    then some (
        field (codes "40BitWEP") (whole_number 0) (
          field (codes "Channel") (whole_number channel) (
            field (codes "Enabled") (whole_number 1) (
              field (codes "NetworkName") (text config.ssid) (
                field (codes "NetworkPassword") (text config.passphrase)
                  (field (codes "WPADisabled") (whole_number 0) no_fields))))))
    else none

-- What `plistlib.load` does with the bytes of a file: a value, its InvalidFileException, or another
-- exception.
pub data Loaded (F : Type 0) : Type 0 where
  loaded : Value F → Loaded F
  invalid_file : Loaded F
  raises : Loaded F

-- The two files, `none` where there is none, and whether they may be read and written.
pub record Mac : Type 0 where
  pub nat_plist : Option Bytes
  pub nat_plist_backup : Option Bytes
  pub can_read : Bool
  pub can_write : Bool

pub data Written : Type 0 where
  done : Written
  os_error : Written
  other_error : Written

-- The dict under a key, empty where the key is missing; `none` where it is something else, on which a
-- dict's methods raise.
abbrev pub dict_under : {F : Type 0} → Fields F → Text → Option (Fields F)
dict_under fs name = elim (field_of fs name) [
  | none ↦ some no_fields
  | some v ↦ elim v [ object gs ↦ some gs | _ ↦ none ]
]

-- What configured_ssid returns, or an exception
pub data Configured (F : Type 0) : Type 0 where
  configured : Option (Value F) → Configured F
  failed : Configured F

-- ssid_from_nat_plist, of a dict
unfoldable pub ssid_from_nat_plist : {F : Type 0} → Fields F → Configured F
ssid_from_nat_plist plist = elim (dict_under plist (codes "NAT")) [
  | none ↦ failed
  | some nat ↦ elim (dict_under nat (codes "AirPort")) [
    | none ↦ failed
    | some airport ↦ configured (field_of airport (codes "NetworkName"))
  ]
]

-- verify_consistency, where the value may be no text
abbrev pub consistent : {F : Type 0} → WifiDeploymentConfig → Configured F → Option Bool
consistent config failed = none
consistent config (configured none) = some (verify_consistency config none)
consistent config (configured (some (text t))) = some (verify_consistency config (some t))
consistent config (configured (some _)) = some false

-- Whether this is a Mac, whether the node is root, and whether launchctl finds the job running
pub record Rights : Type 0 where
  pub darwin : Bool
  pub root : Bool
  pub job_runs : Bool

-- The plist, or `none` where it is no dict: `setdefault` raises.
abbrev pub as_dict : {F : Type 0} → Value F → Option (Fields F)
as_dict (object fs) = some fs
as_dict _ = none

-- The copy to the backup file, where `none` is an OSError of a file that cannot be read or written; the
-- copy is taken as one step, and one that fails half way is left out.
unfoldable pub back_up : Mac → Option Mac
back_up m = elim m.nat_plist [
  | none ↦ some m
  | some b ↦ elim m.nat_plist_backup [
    | some old ↦ some m
    | none ↦
        if m.can_read && m.can_write then some (record m { nat_plist_backup = some b }) else none
  ]
]

-- The merge, where `none` is a ValueError, TypeError or AttributeError.
unfoldable pub merge : {F : Type 0} → WifiDeploymentConfig → ℕ → Fields F → Option (Fields F)
unfolding build_nat_airport_dict set_field
merge config channel plist = elim (dict_under plist (codes "NAT")) [
  | none ↦ none
  | some nat ↦ elim (build_nat_airport_dict config channel) [
    | none ↦ none
    | some airport ↦ some (
        set_field plist (codes "NAT") (
          object (
            set_field (set_field nat (codes "AirPort") (object airport)) (codes "Enabled")
              (whole_number 1))))
  ]
]

-- With plistlib's `load` and `dump`, and which of the opaque values are false.
module _ {F : Type 0} (load : Bytes → Loaded F) (dump : Value F → Bytes) (is_zero : F → Bool) where
  -- `with NAT_PLIST.open("rb")`; of a missing or unreadable file, the OSError counts as invalid.
  unfoldable pub read_plist : Mac → Loaded F
  read_plist m = elim m.nat_plist [
    | none ↦ invalid_file
    | some b ↦ if m.can_read then load b else invalid_file
  ]

  unfoldable pub sharing_configured_ssid : Mac → Configured F
  unfolding read_plist ssid_from_nat_plist
  sharing_configured_ssid m = elim (read_plist m) [
    | invalid_file ↦ configured none
    | raises ↦ failed
    | loaded v ↦ elim v [
      | object fs ↦ ssid_from_nat_plist fs
      | w ↦ if is_false is_zero w then configured none else failed
    ]
  ]

  unfoldable pub after_backup : WifiDeploymentConfig → ℕ → Option (Fields F) → Mac → Mac × Written
  unfolding merge
  after_backup config channel none m = (m, other_error)
  after_backup config channel (some plist) m = elim (merge config channel plist) [
    | none ↦ (m, other_error)
    | some merged ↦
        if m.can_write
        then (record m { nat_plist = some (dump (object merged)) }, done)
        else (m, os_error)
  ]

  -- The rest of the function, after the plist is read.
  unfoldable pub write_over : WifiDeploymentConfig → ℕ → Mac → Loaded F → Mac × Written
  unfolding back_up after_backup
  write_over config channel m raises = (m, other_error)
  write_over config channel m invalid_file = elim (back_up m) [
    | none ↦ (m, os_error)
    | some m' ↦ after_backup config channel (some no_fields) m'
  ]
  write_over config channel m (loaded v) = elim (back_up m) [
    | none ↦ (m, os_error)
    | some m' ↦ after_backup config channel (as_dict v) m'
  ]

  unfoldable pub write_sharing_config : WifiDeploymentConfig → ℕ → Mac → Mac × Written
  unfolding read_plist write_over
  write_sharing_config config channel m = write_over config channel m (read_plist m)

  -- What start returns, where `none` is an exception.
  unfoldable pub sharing_start : WifiDeploymentConfig → ℕ → Rights → Mac → Mac × Option Bool
  unfolding write_sharing_config sharing_configured_ssid
  sharing_start config channel r m =
      if not r.darwin
      then (m, some false)
      else if not r.root
      then (m, some false)
      else (let (m', w) = write_sharing_config config channel m in
          elim w [
            | other_error ↦ (m', none)
            | os_error ↦ (m', some false)
            | done ↦
                if not r.job_runs
                then (m', some false)
                else (m', consistent config (sharing_configured_ssid m'))
          ])

unfoldable pub sharing_stop : Rights → Mac → Mac
sharing_stop r m = if not r.darwin || not r.root then m else elim m.nat_plist_backup [
  | none ↦ m
  | some b ↦ if m.can_write then record m { nat_plist = some b; nat_plist_backup = none } else m
]
