-- ===== src/Server.antt =====
-- request-plane/cmd/server/main.go: the flags that are parsed by hand, and how the server is put
-- together from them.
pub mod Flags
pub mod Assembly
pub mod Secrets
pub mod Staffing
mod Examples
use Prim.Native.Char.{Char}
use llm_inference_control_pl.Common.{
  Bool, true, false, ◌||◌, List, [], ◌∷◌, Option, none, some, String, Assoc, insert, if◌then◌else◌,
}
use llm_inference_control_pl.Common.Text.{split, split_once, is_empty}
use llm_inference_control_pl.Common.Decimal.{atoi}
use llm_inference_control_pl.Auth.{KeyStore, new_key_store, add_key}

-- A pair of the fallback flag: the loop's `continue` leaves the map alone.
abbrev pub set_fallbacks : Assoc (List String) → Option (String × String) → Assoc (List String)
set_fallbacks out none = out
set_fallbacks out (some (model, others)) =
    let known = insert model (split "," others) out in
    if is_empty model || is_empty others then out else known

-- The loop of parseFallbackMap.
unfoldable pub fallback_pairs : List String → Assoc (List String) → Assoc (List String)
fallback_pairs [] out = out
fallback_pairs (pair ∷ pairs) out = fallback_pairs pairs (set_fallbacks out (split_once "=" pair))

-- parseFallbackMap
unfoldable pub parse_fallback_map : String → Assoc (List String)
parse_fallback_map s =
    let pairs = fallback_pairs (split ";" s) [] in if is_empty s then [] else pairs

abbrev pub set_key : KeyStore → Option (String × String) → KeyStore
set_key store none = store
set_key store (some (key, limit)) =
    let known = add_key key (record { key_id = key; requests_per_min = atoi limit }) store in
    if is_empty key then store else known

-- The loop of parseAPIKeys.
unfoldable pub key_pairs : List String → KeyStore → KeyStore
key_pairs [] store = store
key_pairs (pair ∷ pairs) store = key_pairs pairs (set_key store (split_once "=" pair))

-- parseAPIKeys; none is the nil store
unfoldable pub parse_api_keys : String → Option KeyStore
parse_api_keys s =
    let store = key_pairs (split "," s) new_key_store in if is_empty s then none else some store
