-- ===== src/AccessPoint/Restore.antt =====
-- Internet Sharing is set up with the deployment's settings, and put back
-- (node/wifi_ap/internet_sharing.py).
use meshlink_node.Prelude.{
  Bool, Bytes, Option, Option-cases, Text, ap, arith, beq_refl, codes, false, if◌then◌else◌, inl,
  inr, le→leb, list_beq_iff, none, not, or_default, refl, some, true, ℕ, ◌==◌, ◌∙◌, ◌≡◌, ◌≤◌,
  nat_eq, list_eq,
}
use meshlink_node.Json.{Value, text, object, Fields, no_fields, field, field_of}
use meshlink_node.AccessPoint.Deployment.{WifiDeploymentConfig}
use meshlink_node.AccessPoint.Hosting.{verify_consistency}
use meshlink_node.AccessPoint.Sharing.{
  set_field, build_nat_airport_dict, Loaded, loaded, invalid_file, raises, Mac, done, other_error,
  dict_under, configured, ssid_from_nat_plist, Rights, whole_number, consistent, read_plist,
  sharing_configured_ssid, as_dict, after_backup, write_over, back_up, merge, write_sharing_config,
  sharing_start, sharing_stop,
}

field_of-set_field :
    {F : Type 0} (fs : Fields F) (name : Text) (v : Value F) (k : Text)
    → field_of (set_field fs name v) k ≡ (if name == k then some v else field_of fs k)
unfolding set_field
field_of-set_field no_fields name v k = refl
field_of-set_field (field key w fs) name v k = ground (
  arith,
  list_beq_iff key name,
  list_beq_iff key k,
  list_beq_iff name k,
  field_of-set_field fs name v k,
)

-- The merge writes the settings under NAT, AirPort, and leaves every other key as it is.
merge_lem :
    {F : Type 0} (config : WifiDeploymentConfig) (channel : ℕ) (plist nat : Fields F)
    → 1 ≤ channel
    → channel ≤ 13
    → dict_under plist (codes "NAT") ≡ some nat
    → (merged : Fields F) × (merge config channel plist ≡ some merged)
      × (ssid_from_nat_plist merged ≡ configured (some (text config.ssid)))
      × ((name : Text) → (codes "NAT" == name) ≡ false → field_of merged name ≡ field_of plist name)
unfolding merge build_nat_airport_dict ssid_from_nat_plist
merge_lem config channel plist nat low high under =
    let airport = field (codes "40BitWEP") (whole_number 0) (
      field (codes "Channel") (whole_number channel) (
        field (codes "Enabled") (whole_number 1) (
          field (codes "NetworkName") (text config.ssid) (
            field (codes "NetworkPassword") (text config.passphrase)
              (field (codes "WPADisabled") (whole_number 0) no_fields))))) in
    let made = set_field nat (codes "AirPort") (object airport) in
    let nat' = set_field made (codes "Enabled") (whole_number 1) in
    let merged = set_field plist (codes "NAT") (object nat') in
    (
      merged,
      rw (under, merge, le→leb 1 channel low, le→leb channel 13 high),
      rw (
        ssid_from_nat_plist,
        field_of-set_field plist (codes "NAT") (object nat') (codes "NAT"),
        field_of-set_field made (codes "Enabled") (whole_number 1) (codes "AirPort"),
        field_of-set_field nat (codes "AirPort") (object airport) (codes "AirPort"),
      ),
      λ name other. rw (field_of-set_field plist (codes "NAT") (object nat') name, other),
    )

-- A Mac with a plist and no backup.
abbrev pub fresh_mac : Bytes → Bool → Bool → Mac
fresh_mac b r w = record {
  nat_plist = some b;
  nat_plist_backup = none;
  can_read = r;
  can_write = w;
}

abbrev pub on_mac : Bool → Rights
on_mac j = record { darwin = true; root = true; job_runs = j }

-- The dict that is merged into: of no plist, or one that plistlib rejects, the empty one.
abbrev pub merged_into : {F : Type 0} → Loaded F → Option (Fields F)
merged_into invalid_file = some no_fields
merged_into (loaded v) = as_dict v
merged_into raises = none

-- A Mac whose files can be read and written.
abbrev pub open_mac : Option Bytes → Option Bytes → Mac
open_mac p k = record { nat_plist = p; nat_plist_backup = k; can_read = true; can_write = true }

module _ {F : Type 0} (load : Bytes → Loaded F) (dump : Value F → Bytes) (is_zero : F → Bool) where
  after_backup-undone :
      (config : WifiDeploymentConfig) (channel : ℕ) (plist : Option (Fields F)) (j : Bool)
      (b : Bytes)
      → sharing_stop
          (on_mac j)
          (after_backup load dump is_zero config channel plist
            (record (fresh_mac b true true) { nat_plist_backup = some b })).0
        ≡ fresh_mac b true true
  unfolding after_backup sharing_stop
  after_backup-undone config channel none j b = refl
  after_backup-undone config channel (some plist) j b =
      let kept = record (fresh_mac b true true) { nat_plist_backup = some b } in
      elim (Option-cases (merge config channel plist)) [
        | inl e ↦
            let left : after_backup load dump is_zero config channel (some plist) kept
                ≡ (kept, other_error) =
              rw (e, after_backup) in
            ap (λ x. sharing_stop (on_mac j) x.0) left
        | inr (merged, e) ↦
            let new = record kept { nat_plist = some (dump (object merged)) } in
            let left : after_backup load dump is_zero config channel (some plist) kept
                ≡ (new, done) =
              rw (e, after_backup) in
            ap (λ x. sharing_stop (on_mac j) x.0) left
      ]

  write_over-undone :
      (config : WifiDeploymentConfig) (channel : ℕ) (j : Bool) (b : Bytes) (r w : Bool)
      (l : Loaded F)
      → sharing_stop (on_mac j) (write_over load dump is_zero config channel (fresh_mac b r w) l).0
        ≡ fresh_mac b r w
  unfolding write_over back_up sharing_stop
  write_over-undone config channel j b r w raises = refl
  write_over-undone config channel j b true true invalid_file =
      after_backup-undone config channel (some no_fields) j b
  write_over-undone config channel j b true false invalid_file = refl
  write_over-undone config channel j b false w invalid_file = refl
  write_over-undone config channel j b true true (loaded v) =
      after_backup-undone config channel (as_dict v) j b
  write_over-undone config channel j b true false (loaded v) = refl
  write_over-undone config channel j b false w (loaded v) = refl

  -- The files that a start leaves are those of the write, whatever it returns.
  sharing_start-files :
      (config : WifiDeploymentConfig) (channel : ℕ) (j : Bool) (m : Mac)
      → (sharing_start load dump is_zero config channel (on_mac j) m).0
        ≡ (write_sharing_config load dump is_zero config channel m).0
  unfolding sharing_start
  sharing_start-files config channel j m = ground arith

  -- If there is a plist and no backup, stop after start puts both files back as they were, whatever
  -- the start did and returned.
  pub sharing_stop-start :
      (config : WifiDeploymentConfig) (channel : ℕ) (darwin root job_runs : Bool) (b : Bytes)
      (r w : Bool)
      → let rights : Rights = record { darwin = darwin; root = root; job_runs = job_runs } in
        sharing_stop rights
          (sharing_start load dump is_zero config channel rights (fresh_mac b r w)).0
        ≡ fresh_mac b r w
  unfolding sharing_start sharing_stop
  sharing_stop-start config channel false root j b r w = refl
  sharing_stop-start config channel true false j b r w = refl
  sharing_stop-start config channel true true j b r w =
      let m = fresh_mac b r w in
      ap (sharing_stop (on_mac j)) (sharing_start-files config channel j m)
      ∙ write_over-undone config channel j b r w (read_plist load dump is_zero m)

  back_up-open :
      (p k : Option Bytes) → (k' : Option Bytes) × (back_up (open_mac p k) ≡ some (open_mac p k'))
  unfolding back_up
  back_up-open none k = (k, refl)
  back_up-open (some b) none = (some b, refl)
  back_up-open (some b) (some old) = (some old, refl)

  write_over-open :
      (config : WifiDeploymentConfig) (channel : ℕ) (p k : Option Bytes) (l : Loaded F)
      (plist merged : Fields F)
      → merged_into l ≡ some plist
      → merge config channel plist ≡ some merged
      → (k' : Option Bytes) × (write_over load dump is_zero config channel (open_mac p k) l
          ≡ (open_mac (some (dump (object merged))) k', done))
  unfolding write_over after_backup
  write_over-open config channel p k raises plist merged e f = absurd (cc)
  write_over-open config channel p k invalid_file plist merged e f =
      let (k', g) = back_up-open p k in
      let same : no_fields ≡ plist = ap (λ o. or_default o no_fields) e in
      let f' : merge config channel no_fields ≡ some merged = ap (merge config channel) same ∙ f in
      (k', rw (g, write_over, f', after_backup))
  write_over-open config channel p k (loaded v) plist merged e f =
      let (k', g) = back_up-open p k in (k', rw (g, write_over, e, f, after_backup))

  sharing_start-done :
      (config : WifiDeploymentConfig) (channel : ℕ) (j : Bool) (m m' : Mac)
      → write_sharing_config load dump is_zero config channel m ≡ (m', done)
      → sharing_start load dump is_zero config channel (on_mac j) m ≡ (
        m',
        if not j
            then some false
            else consistent config (sharing_configured_ssid load dump is_zero m'),
      )
  unfolding sharing_start
  sharing_start-done config channel true m m' e = rw (e, sharing_start, e)
  sharing_start-done config channel false m m' e = rw (e, sharing_start, e)

  -- As root on a Mac whose files can be read and written, with a channel of 1 to 13, a plist that
  -- is missing, invalid or a dict with no NAT or a dict there, and a plistlib that loads the merged
  -- plist as it was dumped, start returns whether the job runs, the SSID read back is the
  -- deployment's, and every key of the plist but NAT is as before.
  pub sharing_start-configures :
      (config : WifiDeploymentConfig) (channel : ℕ) (job_runs : Bool) (p k : Option Bytes)
      (plist nat : Fields F) (name : Text)
      → ((fs : Fields F)
          → merge config channel plist ≡ some fs
          → load (dump (object fs)) ≡ loaded (object fs))
      → 1 ≤ channel
      → channel ≤ 13
      → merged_into (read_plist load dump is_zero (open_mac p k)) ≡ some plist
      → dict_under plist (codes "NAT") ≡ some nat
      → (codes "NAT" == name) ≡ false
      → let (m, answer) =
          sharing_start load dump is_zero config channel (on_mac job_runs) (open_mac p k) in
        (merged : Fields F) × (m.nat_plist ≡ some (dump (object merged)))
        × (answer ≡ some job_runs)
        × (field_of merged name ≡ field_of plist name)
        × (sharing_configured_ssid load dump is_zero m ≡ configured (some (text config.ssid)))
  unfolding sharing_configured_ssid read_plist write_sharing_config verify_consistency
  sharing_start-configures config channel j p k plist nat name back low high read under other =
      let (merged, made, ssid, others) = merge_lem config channel plist nat low high under in
      let (k', written) =
        write_over-open config channel p k (read_plist load dump is_zero (open_mac p k)) plist
          merged read made in
      let found : sharing_configured_ssid load dump is_zero
            (open_mac (some (dump (object merged))) k')
          ≡ configured (some (text config.ssid)) =
        rw (back merged made, sharing_configured_ssid) ssid in
      let run =
        sharing_start-done config channel j (open_mac p k)
          (open_mac (some (dump (object merged))) k') written in
      (
        merged,
        rw run,
        rw (run, found, beq_refl config.ssid) (ground arith),
        others name other,
        rw (run) found,
      )
