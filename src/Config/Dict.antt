-- ===== src/Config/Dict.antt =====
-- Python's dict with text keys, as an association list: a dictionary of options, and the attributes
-- that `setattr` gives the options object.
use gr_ccsds.Prelude.{
  ◌≡◌, refl, Option, none, some, List, [], ◌∷◌, String, ◌=s=◌, eq_iff, arith, if◌then◌else◌, Result,
  attribute_error, or_raise,
}
use gr_ccsds.Config.Values.{Value}

abbrev pub Dict : Type 0
Dict = List (String × Value)

-- d.get(k)
unfoldable pub lookup : String → Dict → Option Value
lookup k [] = none
lookup k ((j, v) ∷ d) = let rest = lookup k d in if j =s= k then some v else rest

-- d[k] = v
unfoldable pub insert : String → Value → Dict → Dict
insert k v [] = (k, v) ∷ []
insert k v ((j, w) ∷ d) = let rest = insert k v d in if j =s= k then (k, v) ∷ d else (j, w) ∷ rest

-- o.k, for an option
abbrev pub attr : String → Dict → Result Value
attr k o = or_raise attribute_error (lookup k o)

pub lookup-insert :
    (k j : String) (v : Value) (d : Dict)
    → lookup j (insert k v d) ≡ (if k =s= j then some v else lookup j d)
unfolding lookup insert
lookup-insert k j v [] = refl
lookup-insert k j v ((i, w) ∷ d) =
    ground (arith, eq_iff k j, eq_iff i k, eq_iff i j, lookup-insert k j v d)

-- a, or b where a is missing
abbrev pub or_else : Option Value → Option Value → Option Value
or_else none b = b
or_else (some v) b = some v
