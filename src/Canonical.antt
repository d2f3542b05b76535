-- ===== src/Canonical.antt =====
-- packages/core/src/run-drafts.ts: the canonical text of a JSON value, and its hash.
use miracle_agent.Prelude.{String, List, [], ◌∷◌, map, Ordering, sort_by, ◌+++◌}
use miracle_agent.Prelude.Json.{
  Json, null, bool, number, string, array, object, Items, nil, cons, Fields, end, field,
}

-- What the source takes from its runtime: `JSON.stringify` of a value that is no object, the order
-- of `Array.prototype.sort` on texts, and the hexadecimal SHA-256 digest of `node:crypto`.
pub record Host : Type 0 where
  pub stringify : Json → String
  pub key_order : String → String → Ordering
  pub sha256 : String → String

-- `parts.join(",")`
unfoldable pub join : List String → String
join [] = ""
join (x ∷ []) = x
join (x ∷ y ∷ rest) = x +++ ("," +++ join (y ∷ rest))

abbrev pub entry_order : (String → String → Ordering) → String × String → String × String → Ordering
entry_order order a b = order a.0 b.0

abbrev pub entry_text : Host → String × String → String
entry_text host (key, text) = host.stringify (string key) +++ (":" +++ text)

-- The text of an object's entries, its keys sorted.
unfoldable pub object_text : Host → List (String × String) → String
object_text host entries =
    "{" +++ (join (map (entry_text host) (sort_by (entry_order host.key_order) entries)) +++ "}")

unfoldable mutual
  unfolding object_text

  pub canonical_json : Host → Json → String
  canonical_json host (array items) = "[" +++ (join (canonical_items host items) +++ "]")
  canonical_json host (object fields) = object_text host (canonical_fields host fields)
  canonical_json host null = host.stringify null
  canonical_json host (bool b) = host.stringify (bool b)
  canonical_json host (number n) = host.stringify (number n)
  canonical_json host (string s) = host.stringify (string s)

  pub canonical_items : Host → Items → List String
  canonical_items host nil = []
  canonical_items host (cons item items) = canonical_json host item ∷ canonical_items host items

  pub canonical_fields : Host → Fields → List (String × String)
  canonical_fields host end = []
  canonical_fields host (field key value fields) =
      (key, canonical_json host value) ∷ canonical_fields host fields

unfoldable pub canonical_plan_hash : Host → Json → String
canonical_plan_hash host value = "sha256:" +++ host.sha256 (canonical_json host value)
