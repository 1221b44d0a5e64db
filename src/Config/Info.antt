-- ===== src/Config/Info.antt =====
-- The node's name and place (node/config.py), from the JSON file that it writes where there is none.
use meshlink_node.Prelude.{
  Bool, Bytes, Option, Text, [], codes, if◌then◌else◌, none, or_default, some, ◌++◌, ◌∷◌, nat_eq,
  list_eq, int_eq, ◌>>=◌,
}
use meshlink_node.Json.{Value, null, text, object, field_of, is_false}

pub record NodeInfo (F : Type 0) : Type 0 where
  pub node_name : Value F
  pub node_lat : Value F
  pub node_lon : Value F

-- With what `json.dumps` makes of the placeholder, and `json.load`: the file after it and the value,
-- where `none` is a ValueError.
unfoldable pub load_node_info :
    {F : Type 0} → Bytes → (Bytes → Option (Value F)) → Option Bytes → Bytes × Option (Value F)
load_node_info placeholder load (some file) = (file, load file)
load_node_info placeholder load none = (placeholder ++ 10 ∷ [], load (placeholder ++ 10 ∷ []))

-- _node_info.get(name); of what is not a dict, the AttributeError is `none`.
unfoldable pub info_get : {F : Type 0} → Value F → Text → Option (Value F)
info_get (object fs) name = some (or_default (field_of fs name) null)
info_get _ name = none

abbrev default_name : {F : Type 0} → Value F
default_name = text (codes "MeshLink Node")

unfoldable pub node_info_of : {F : Type 0} → (F → Bool) → Value F → Option (NodeInfo F)
unfolding info_get
node_info_of is_zero v = do
  name ← info_get v (codes "node_name")
  lat ← info_get v (codes "lat")
  lon ← info_get v (codes "lon")
  some (record {
    node_name = if is_false is_zero name then default_name else name;
    node_lat = lat;
    node_lon = lon;
  })
