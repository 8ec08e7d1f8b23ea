-- ===== src/Output/Reread.antt =====
-- The JSON that `write_json` of lib/src/facts/collection.cc writes, read again as external facts.
use facter.Base.{String, List, [], ◌∷◌, if◌then◌else◌}
use facter.Base.Lower.{to_lower}
use facter.Values.{
  Value, Elements, Fields, string_value, integer_value, boolean_value, double_value, array_value,
  map_value, nil, cons, end, field, hidden,
}
use facter.External.Json.Document.{IsReadable, AllItems, AllMembers}
use facter.Output.{to_json, to_items, to_members}
use facter.Output.Rebuild.{plain, IsOrdered, ElementsOrdered, FieldsOrdered}

mutual
  unfolding to_json

  to_json-IsReadable : (v : Value) → IsOrdered v → IsReadable (to_json v)
  to_json-IsReadable (string_value h s) o = tt
  to_json-IsReadable (integer_value h n) o = tt
  to_json-IsReadable (boolean_value h b) o = tt
  to_json-IsReadable (double_value h d) o = tt
  to_json-IsReadable (array_value h xs) o = to_items-AllItems xs o
  to_json-IsReadable (map_value h fs) o = to_members-AllMembers fs o.1

  to_items-AllItems : (xs : Elements) → ElementsOrdered xs → AllItems (to_items xs)
  to_items-AllItems nil o = tt
  to_items-AllItems (cons x xs) (o, p) = (to_json-IsReadable x o, to_items-AllItems xs p)

  to_members-AllMembers : (fs : Fields) → FieldsOrdered fs → AllMembers (to_members fs)
  to_members-AllMembers end o = tt
  to_members-AllMembers (field k v fs) ((n, e), (o, p)) =
      (rw (e, e) n, (to_json-IsReadable v o, to_members-AllMembers fs p))

-- The facts that are not hidden, their names in lower case.
unfoldable pub relisted : Fields → List (String × Value)
unfolding plain hidden
relisted end = []
relisted (field k v fs) =
    let rest = relisted fs in if hidden v then rest else (to_lower k, plain v) ∷ rest
