-- ===== src/Server/Flags.antt =====
-- Round trips: what the flags' parsers make of a configuration that was printed in their format.
use Prim.Native.String.{◌++◌ as str_append}
use mathlib.Core.List.{append_assoc, append-nil}
use llm_inference_control_pl.Common.{
  ℕ, ◌<◌, ◌^◌, ◌≡◌, ◌≢◌, refl, sym, ap, false, List, [], ◌∷◌, ◌++◌, map, some, String, str_eq,
  Assoc, insert, IsMap, Absent, All, pos, arith, eq_iff,
}
use llm_inference_control_pl.Common.Text.{
  split_once, join, is_empty, Lacks, split-join, split_once-append, is_empty-join, is_empty-append,
  append-Lacks, join-Lacks,
}
use llm_inference_control_pl.Common.Decimal.{format_int}
use llm_inference_control_pl.Common.Decimal.RoundTrip.{atoi-format_int, format_int-Lacks}
use llm_inference_control_pl.Auth.{KeyInfo, KeyStore, new_key_store, add_key}
use llm_inference_control_pl.Server.{
  set_fallbacks, fallback_pairs, parse_fallback_map, set_key, key_pairs, parse_api_keys,
}

module _ {V : Type 0} where
  -- An entry is appended if its key is new.
  insert_new : (k : String) (v : V) (m : Assoc V) → Absent k m → insert k v m ≡ m ++ (k, v) ∷ []
  unfolding insert
  insert_new k v [] h = refl
  insert_new k v ((j, w) ∷ m) h = ground (arith, insert_new k v m h.1, eq_iff j k, eq_iff k j)

  Absent-middle :
      (j k : String) (v : V) (m rest : Assoc V) → Absent j (m ++ (k, v) ∷ rest) → str_eq j k ≡ false
  Absent-middle j k v [] rest h = ground (arith, h.0, eq_iff k j, eq_iff j k)
  Absent-middle j k v ((i, w) ∷ m) rest h = Absent-middle j k v m rest h.1

  IsMap-middle : (k : String) (v : V) (m rest : Assoc V) → IsMap (m ++ (k, v) ∷ rest) → Absent k m
  IsMap-middle k v [] rest h = tt
  IsMap-middle k v ((j, w) ∷ m) rest h =
      (Absent-middle j k v m rest h.0, IsMap-middle k v m rest h.1)

-- The text of one chain of the fallback flag.
abbrev pub print_chain : String × List String → String
print_chain (model, others) = str_append model (String.◌∷◌ "=" (join "," others))

-- The text of the whole flag.
abbrev pub print_fallbacks : Assoc (List String) → String
print_fallbacks m = join ";" (map print_chain m)

-- A model with at least one fallback. Only the first "=" of a chain is a separator.
abbrev pub IsModel : String → Type 0
IsModel s = Lacks "=" s × Lacks ";" s × (is_empty s ≡ false)

abbrev pub IsFallback : String → Type 0
IsFallback s = Lacks "," s × Lacks ";" s × (is_empty s ≡ false)

abbrev pub IsChain : String × List String → Type 0
IsChain (model, []) = ⊥
IsChain (model, other ∷ others) = IsModel model × IsFallback other × All IsFallback others

fallbacks-Lacks :
    (others : List String) → All IsFallback others → All (Lacks ",") others × All (Lacks ";") others
fallbacks-Lacks [] h = (tt, tt)
fallbacks-Lacks (other ∷ others) ((comma, semicolon, named), h) =
    let (commas, semicolons) = fallbacks-Lacks others h in
    ((comma, commas), (semicolon, semicolons))

print_chain-Lacks : (c : String × List String) → IsChain c → Lacks ";" (print_chain c)
print_chain-Lacks (model, []) h = absurd h
print_chain-Lacks (model, other ∷ others) (m, h, hs) =
    append-Lacks ";" model _ m.1
      (refl, join-Lacks "," ";" (other ∷ others) refl (fallbacks-Lacks (other ∷ others) (h, hs)).1)

chains-Lacks : (m : Assoc (List String)) → All IsChain m → All (Lacks ";") (map print_chain m)
chains-Lacks [] h = tt
chains-Lacks (c ∷ m) h = (print_chain-Lacks c h.0, chains-Lacks m h.1)

set_fallbacks-print_chain :
    (out : Assoc (List String)) (c : String × List String)
    → IsChain c
    → set_fallbacks out (split_once "=" (print_chain c)) ≡ insert c.0 c.1 out
set_fallbacks-print_chain out (model, []) h = absurd h
set_fallbacks-print_chain out (model, other ∷ others) (m, h, hs) =
    rw
      (
        split_once-append "=" model (join "," (other ∷ others)) m.0,
        m.2,
        is_empty-join "," other others h.2,
        split-join "," (other ∷ others) (cc) (fallbacks-Lacks (other ∷ others) (h, hs)).0,
      )
      refl

fallback_pairs-print :
    (out m : Assoc (List String))
    → IsMap (out ++ m)
    → All IsChain m
    → fallback_pairs (map print_chain m) out ≡ out ++ m
unfolding fallback_pairs
fallback_pairs-print out [] distinct valid = sym (append-nil out)
fallback_pairs-print out ((model, others) ∷ m) distinct valid =
    let extended : (out ++ (model, others) ∷ []) ++ m ≡ out ++ (model, others) ∷ m =
      append_assoc out ((model, others) ∷ []) m in
    rw
      (
        fallback_pairs,
        set_fallbacks-print_chain out (model, others) valid.0,
        insert_new model others out (IsMap-middle model others out m distinct),
        fallback_pairs-print (out ++ (model, others) ∷ []) m (rw extended distinct) valid.1,
      )
      extended

-- The fallback flag is read back from its printed form: a map with distinct models, each with at
-- least one fallback, whose names are not empty and hold none of the separators.
pub parse-print_fallbacks :
    (m : Assoc (List String)) → IsMap m → All IsChain m → parse_fallback_map (print_fallbacks m) ≡ m
unfolding parse_fallback_map join
parse-print_fallbacks [] distinct valid = refl
parse-print_fallbacks (c ∷ m) distinct valid =
    rw
      (
        is_empty-join ";" (print_chain c) (map print_chain m) (is_empty-append c.0 _ "="),
        split-join ";" (map print_chain (c ∷ m)) (cc) (chains-Lacks (c ∷ m) valid),
      )
      (fallback_pairs-print [] (c ∷ m) distinct valid)

-- The text of one key of the API key flag, with its requests a minute.
abbrev pub print_key : String × ℕ → String
print_key (key, limit) = str_append key (String.◌∷◌ "=" (format_int limit))

-- The text of the whole flag.
abbrev pub print_keys : Assoc ℕ → String
print_keys limits = join "," (map print_key limits)

-- A key that may stand in the flag, and a limit that is an int64.
abbrev pub IsLimit : String × ℕ → Type 0
IsLimit (key, limit) = Lacks "=" key × Lacks "," key × (is_empty key ≡ false) × (limit < 2 ^ 63)

-- The store that such a flag describes.
abbrev pub stored : Assoc ℕ → Assoc KeyInfo
stored [] = []
stored ((key, limit) ∷ limits) =
    (key, record { key_id = key; requests_per_min = pos limit }) ∷ stored limits

keys-Lacks : (limits : Assoc ℕ) → All IsLimit limits → All (Lacks ",") (map print_key limits)
keys-Lacks [] h = tt
keys-Lacks ((key, limit) ∷ limits) h = (
  append-Lacks "," key _ h.0.1 (refl, format_int-Lacks "," limit (omega arith)),
  keys-Lacks limits h.1,
)

set_key-print_key :
    (store : KeyStore) (key : String) (limit : ℕ)
    → IsLimit (key, limit)
    → set_key store (split_once "=" (print_key (key, limit))) ≡ record {
      keys = insert key (record { key_id = key; requests_per_min = pos limit }) store.keys;
    }
unfolding add_key
set_key-print_key store key limit h =
    rw (split_once-append "=" key (format_int limit) h.0, h.2, atoi-format_int limit h.3) refl

key_pairs-print :
    (known : Assoc KeyInfo) (limits : Assoc ℕ)
    → IsMap (known ++ stored limits)
    → All IsLimit limits
    → (key_pairs (map print_key limits) (record { keys = known })).keys ≡ known ++ stored limits
unfolding key_pairs
key_pairs-print known [] distinct valid = sym (append-nil known)
key_pairs-print known ((key, limit) ∷ limits) distinct valid =
    let info : KeyInfo = record { key_id = key; requests_per_min = pos limit } in
    let extended : (known ++ (key, info) ∷ []) ++ stored limits
        ≡ known ++ (key, info) ∷ stored limits =
      append_assoc known ((key, info) ∷ []) (stored limits) in
    rw
      (
        key_pairs,
        set_key-print_key (record { keys = known }) key limit valid.0,
        insert_new key info known (IsMap-middle key info known (stored limits) distinct),
        key_pairs-print (known ++ (key, info) ∷ []) limits (rw extended distinct) valid.1,
      )
      extended

-- The API key flag is read back from its printed form: a key store that is not empty, with distinct
-- keys that are not empty and hold no separator, and int64 limits, which reading does not change.
pub parse-print_keys :
    (limits : Assoc ℕ)
    → limits ≢ []
    → IsMap (stored limits)
    → All IsLimit limits
    → parse_api_keys (print_keys limits) ≡ some (record { keys = stored limits })
unfolding parse_api_keys new_key_store
parse-print_keys [] h distinct valid = absurd (h refl)
parse-print_keys (l ∷ limits) h distinct valid =
    rw
      (
        is_empty-join "," (print_key l) (map print_key limits) (is_empty-append l.0 _ "="),
        split-join "," (map print_key (l ∷ limits)) (cc) (keys-Lacks (l ∷ limits) valid),
      )
      (ap (λ (keys : Assoc KeyInfo). some (record { keys = keys }))
        (key_pairs-print [] (l ∷ limits) distinct valid))
