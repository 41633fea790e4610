-- ===== src/Json.antt =====
-- JSON values, as `json.loads` returns them, and Python's `dict` with text keys, in insertion order.
-- A column that holds JSON text is modelled by the value that the text encodes.
use smdr.Prelude.{ℕ, String, Bool, Option, none, some, List, [], ◌∷◌, same, if◌then◌else◌}

mutual
  pub data Json : Type 0 where
    null : Json
    bool : Bool → Json
    num : ℕ → Json
    str : String → Json
    arr : Items → Json
    obj : Fields → Json

  pub data Items : Type 0 where
    nil : Items
    cons : Json → Items → Items

  pub data Fields : Type 0 where
    end : Fields
    field : String → Json → Fields → Fields

abbrev pub JsonDict : Type 0
JsonDict = List (String × Json)

-- d.get(k)
unfoldable pub get : JsonDict → String → Option Json
get [] k = none
get ((j, v) ∷ d) k = if same j k then some v else get d k

-- d[k] = v: an old key keeps its place
unfoldable pub put : JsonDict → String → Json → JsonDict
put [] k v = (k, v) ∷ []
put ((j, w) ∷ d) k v = if same j k then (j, v) ∷ d else (j, w) ∷ put d k v

-- xs.append(v)
unfoldable pub append : Items → Json → Items
append nil v = cons v nil
append (cons x xs) v = cons x (append xs v)
