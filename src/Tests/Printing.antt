-- ===== src/Tests/Printing.antt =====
-- Facts to write.
use facter.Base.{◌≡◌, refl, true, false, none, some, [], ◌∷◌}
use facter.Base.Text.{c_str}
use facter.Base.Int.{pos}
use facter.Values.{
  Fields, string_value, integer_value, boolean_value, array_value, map_value, nil, cons, end, field,
}
use facter.Output.{
  Printer, json, Entries, entries, json_entries, yaml_entries, print_entries, write_value,
}
use facter.Output.Shown.{visible, print_entries-visible}
use facter.Output.Agree.{EntriesSpelled, member_tokens, member_tokens-json_entries}

abbrev printer : Printer
printer = record { print_int = λ n. "7"; print_double = λ d. "1.5" }

abbrev os_fields : Fields
os_fields =
    field "family" (string_value false "Debian") (field "minor" (integer_value false (pos 7)) end)

abbrev facts : Fields
facts =
    field "OS" (map_value false os_fields)
      (field "id" (string_value true "root") (field "virtual" (boolean_value false true) end))

print_entries-visible_example :
    print_entries printer json true (entries facts)
    ≡ print_entries printer json true (entries (visible facts))
print_entries-visible_example = print_entries-visible printer json facts

without_id :
    visible facts
    ≡ field "OS" (map_value false os_fields) (field "virtual" (boolean_value false true) end)
unfolding visible
without_id = refl

written :
    write_value printer false 1 (array_value false (cons (string_value false "a") nil))
    ≡ "[\n  \"a\"\n]"
unfolding write_value
written = refl

abbrev queried : Entries
queried = ("os.family", some (string_value false "Debian")) ∷ ("7", none) ∷ []

queried-EntriesSpelled : EntriesSpelled queried
unfolding c_str
queried-EntriesSpelled = (refl, (tt, (refl, (tt, tt))))

member_tokens-json_entries_example :
    member_tokens (json_entries false queried) [] ≡ yaml_entries false queried []
member_tokens-json_entries_example =
    member_tokens-json_entries false queried [] queried-EntriesSpelled
