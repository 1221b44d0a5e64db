-- ===== src/Organiser/Sources.antt =====
-- A node that learned the organiser's key keeps it over a boot without the backend
-- (node/attestation/organiser_key.py).
use meshlink_node.Prelude.{
  Text, [], ap, not, some, subst, sym, true, ◌++◌, ◌∷◌, ◌≡◌, nat_eq, list_eq,
}
use meshlink_node.Json.{Value}
use meshlink_node.Strings.{every, is_space}
use meshlink_node.Strings.Laws.{strip-feed}
use meshlink_node.Organiser.{
  unreachable, body, KeyCache, key, public_key, from_cache, load_organiser_pubkey,
}

-- If the backend sends a key without spaces and the cache can be written, the boot has that key,
-- and a boot after it that does not reach the backend has the same key and leaves the cache as it
-- is.
pub load_organiser_pubkey-reboot :
    {F : Type 0} (v : Value F) (t : Text) (c : KeyCache)
    → public_key v ≡ some t
    → c.can_write ≡ true
    → every (λ x. not (is_space x)) t ≡ true
    → let (kept, first) = load_organiser_pubkey (body (some v)) c in
      (first ≡ key t) × (load_organiser_pubkey {F = F} unreachable kept ≡ (kept, key t))
unfolding load_organiser_pubkey from_cache
load_organiser_pubkey-reboot v t c e w h =
    let new = record c { file = some (t ++ 10 ∷ []) } in
    let run : load_organiser_pubkey (body (some v)) c ≡ (new, key t) =
      rw (e, load_organiser_pubkey, w) in
    (
      ap (λ x. x.1) run,
      subst (λ x. from_cache x.0 ≡ (x.0, key t)) (sym run)
          (ap (λ u. (new, key u)) (strip-feed t h)),
    )
