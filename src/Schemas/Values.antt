-- ===== src/Schemas/Values.antt =====
-- The schema parts of zod that packages/core/src/schemas.ts combines, on a JSON value or on a
-- property that may be missing.
use miracle_agent.Prelude.{
  ℕ, String, Bool, Option, none, some, List, [], ◌∷◌, leb, ◌==◌, string_eq, is_nonempty,
  if◌then◌else◌, Result, ok, throw, schema_error, guard, ◌>>=◌, ◌>>◌,
}
use miracle_agent.Prelude.Int.{pos}
use miracle_agent.Prelude.Json.{
  Json, bool, number, string, object, finite, Items, nil, cons, Fields, end, field,
}

-- `value.key`
abbrev pub own : String → Fields → Option Json
own key end = none
own key (field k v fields) = if k == key then some v else own key fields

-- `{ ...value, key: v }` for a key that the value does not have.
abbrev pub append_fields : Fields → Fields → Fields
append_fields end more = more
append_fields (field k v fields) more = field k v (append_fields fields more)

abbrev pub elements : Items → List Json
elements nil = []
elements (cons v items) = v ∷ elements items

abbrev pub items_of : List Json → Items
items_of [] = nil
items_of (v ∷ vs) = cons v (items_of vs)

abbrev pub object_fields : Option Json → Result Fields
object_fields (some (object fields)) = ok fields
object_fields _ = throw schema_error

-- `z.string()`
abbrev pub text : Option Json → Result String
text (some (string s)) = ok s
text _ = throw schema_error

-- `z.string().min(1)`
abbrev pub nonempty_text : Option Json → Result String
nonempty_text value = do s ← text value; guard (is_nonempty s) schema_error; ok s

-- `z.number().min(least)`, of a finite number.
abbrev pub number_from : ℕ → Option Json → Result ℕ
number_from least (some (number (finite (pos n)))) = do guard (leb least n) schema_error; ok n
number_from least _ = throw schema_error

-- `z.boolean()`
abbrev pub boolean : Option Json → Result Bool
boolean (some (bool b)) = ok b
boolean _ = throw schema_error

-- `.optional()`
abbrev pub optional {ℓ} : {A : Type ℓ} → (Option Json → Result A) → Option Json → Result (Option A)
optional parse none = ok none
optional parse (some v) = do a ← parse (some v); ok (some a)

-- A property that `JSON.stringify` leaves out when it is `undefined`.
abbrev pub optional_field : String → Option Json → Fields → Fields
optional_field key none fields = fields
optional_field key (some v) fields = field key v fields
