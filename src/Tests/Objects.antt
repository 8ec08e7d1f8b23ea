-- ===== src/Tests/Objects.antt =====
-- A value as a Ruby object.
use facter.Base.{◌≡◌, refl, Bool, true, false, [], arith}
use facter.Base.Int.{ℤ, pos}
use facter.Values.{Value, string_value, integer_value, boolean_value, map_value, field, end}
use facter.External.Json.Document.{json_bool}
use facter.Text.{needs_quotation}
use facter.Output.{Printer, to_json, emit, write_value}
use facter.Ruby.Written.{
  Object, false_object, string, array, object, no_objects, object_json, emit_object, write_object,
  to_ruby,
}
use facter.Ruby.Written.Agrees.{IsCommon, to_ruby-agrees}

abbrev printer : Printer
printer = record { print_int = λ n. "4"; print_double = λ d. "0.5" }

abbrev small : ℤ → Bool
small n = true

abbrev processors : Value
processors = map_value false (
    field "count" (integer_value false (pos 4))
      (field "model" (string_value false "Xeon") (field "smt" (boolean_value false true) end)))

processors-IsCommon : IsCommon small processors
unfolding needs_quotation
processors-IsCommon = (refl, ((refl, omega arith), (refl, (tt, (refl, (refl, tt))))))

to_ruby-agrees_example :
    (object_json (to_ruby small processors) ≡ to_json processors)
    × (emit_object (to_ruby small processors) [] ≡ emit processors [])
    × (write_object printer false 1 (to_ruby small processors)
        ≡ write_value printer false 1 processors)
to_ruby-agrees_example = to_ruby-agrees small printer false 1 processors [] processors-IsCommon

abbrev flags : Object
flags = array (object false_object (object (string "no") no_objects))

false_written : object_json false_object ≡ json_bool true
unfolding object_json
false_written = refl
