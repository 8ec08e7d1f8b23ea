-- ===== src/Tests/Collections.antt =====
-- A collection with two resolvers: one adds the facts it declares, the other asks for one of them
-- and adds a fact that only its pattern matches.
use facter.Base.{
  ℕ, String, ◌≡◌, refl, true, false, Option, none, some, List, [], ◌∷◌, ◌==◌, ◌=?◌, arith,
  if◌then◌else◌,
}
use facter.Values.{
  Value, string_value, map_value, array_value, Fields, field, end, nil, cons, find, assign,
}
use facter.Values.Sorted.{IsSorted}
use facter.Base.Text.{str_ltb}
use facter.Collection.{
  done, add_fact, get_fact, Resolver, Collection, empty_collection, returned, dangling, exec,
  get_value, add, add_resolver, remove_resolver, resolve_facts, has_entry, points_to, equal_range,
  is_match,
}
use facter.Collection.Tidy.{IsTidy, empty-IsTidy, add_resolver-IsTidy, remove_resolver-IsTidy}
use facter.Collection.Follows.{Fits, Ends}
use facter.Collection.Fuel.{exec-Ends}
use facter.Collection.Pending.{IsQuiet}
use facter.Collection.Laziness.{get_value-get_value, get_value-add}
use facter.Collection.Complete.{Completes, resolve_facts-IsComplete}
use facter.Collection.Dangling.{get_value_dangles}
use facter.Query.{query_value}
use facter.Query.Paths.{Key, spell_path, descend, query_value-spell_path}

abbrev text_of : String → Option Value
text_of s = some (string_value false s)

abbrev os_resolver : Resolver
os_resolver = record {
  name = "os";
  names = "kernel" ∷ "os" ∷ [];
  regexes = [];
  body = add_fact "kernel" (text_of "Linux") (add_fact "os" (text_of "Debian") done);
}

abbrev mounts_resolver : Resolver
mounts_resolver = record {
  name = "mounts";
  names = "mounts" ∷ [];
  regexes = (λ name. name == "mount_root") ∷ [];
  body = get_fact "os" (λ v. add_fact "mount_root" v done);
}

abbrev heap : ℕ → Resolver
heap p = if p =? 0 then os_resolver else mounts_resolver

abbrev start : Collection
unfolding add_resolver
start = add_resolver heap (some 1) (add_resolver heap (some 0) empty_collection)

start-IsTidy : IsTidy heap start
unfolding start
start-IsTidy =
    add_resolver-IsTidy heap (some 1) (add_resolver-IsTidy heap (some 0) (empty-IsTidy heap))

start-Fits : Fits heap 2 start
unfolding start
start-Fits = record { tidy = start-IsTidy; left = omega arith; sorted = tt }

resolve_facts-IsComplete_example : Completes heap (resolve_facts heap start)
unfolding start
resolve_facts-IsComplete_example = resolve_facts-IsComplete heap start start-IsTidy tt

exec-Ends_example :
    Ends heap 2 start (exec heap 2 (get_fact "mount_root" (λ v. add_fact "copy" v done)) start)
exec-Ends_example =
    exec-Ends heap 2 2 (get_fact "mount_root" (λ v. add_fact "copy" v done)) start (omega arith)
      start-Fits

-- Asking for the fact of the pattern runs both resolvers.
abbrev both_ran : Collection
both_ran = record {
  facts = field "kernel" (string_value false "Linux") (
      field "mount_root" (string_value false "Debian")
        (field "os" (string_value false "Debian") end));
  resolvers = [];
  resolver_map = [];
  pattern_resolvers = [];
}

mount_root_asked :
    get_value heap (exec heap 2) "mount_root" start ≡ returned (text_of "Debian", both_ran)
unfolding get_value exec start str_ltb find assign
mount_root_asked = refl

get_value-get_value_example :
    IsQuiet heap "mount_root" both_ran
    × (get_value heap (exec heap 2) "mount_root" both_ran ≡ returned (text_of "Debian", both_ran))
get_value-get_value_example =
    get_value-get_value heap 2 start-Fits "mount_root" (text_of "Debian") mount_root_asked

-- Adding a fact first resolves the one that is there.
abbrev os_replaced : Collection
os_replaced = record {
  facts =
      field "kernel" (string_value false "Linux") (field "os" (string_value false "Devuan") end);
  resolvers = 1 ∷ [];
  resolver_map = ("mounts", 1) ∷ [];
  pattern_resolvers = 1 ∷ [];
}

os_added : add heap (exec heap 2) "os" (text_of "Devuan") start ≡ returned os_replaced
unfolding add exec start str_ltb assign
os_added = refl

get_value-add_example :
    get_value heap (exec heap 2) "os" os_replaced ≡ returned (text_of "Devuan", os_replaced)
get_value-add_example = get_value-add heap 2 start-Fits "os" (text_of "Devuan") os_added

remove_resolver-IsTidy_example :
    IsTidy heap (remove_resolver heap 1 start)
    × ((k : String) → has_entry k 1 (remove_resolver heap 1 start).resolver_map ≡ false)
    × (points_to 1 (remove_resolver heap 1 start).pattern_resolvers ≡ false)
    × (points_to 1 (remove_resolver heap 1 start).resolvers ≡ false)
remove_resolver-IsTidy_example = remove_resolver-IsTidy heap 1 start-IsTidy

-- Two resolvers whose patterns match everything, where the first asks for a fact of the second.
abbrev greedy : ℕ → Resolver
greedy p = record {
  name = "greedy";
  names = [];
  regexes = (λ name. true) ∷ [];
  body = if p =? 0 then get_fact "other" (λ v. done) else done;
}

abbrev crowded : Collection
unfolding add_resolver
crowded = add_resolver greedy (some 1) (add_resolver greedy (some 0) empty_collection)

crowded-Fits : Fits greedy 2 crowded
unfolding crowded
crowded-Fits = record {
  tidy =
      add_resolver-IsTidy greedy (some 1)
        (add_resolver-IsTidy greedy (some 0) (empty-IsTidy greedy));
  left = omega arith;
  sorted = tt;
}

crowded_range : equal_range "any" crowded.resolver_map ≡ []
unfolding crowded equal_range
crowded_range = refl

crowded_patterns : crowded.pattern_resolvers ≡ 0 ∷ 1 ∷ []
unfolding crowded
crowded_patterns = refl

greedy_matches : (p : ℕ) (name : String) → is_match (greedy p) name ≡ true
unfolding is_match
greedy_matches p name = refl

get_value_dangles_example : get_value greedy (exec greedy 2) "any" crowded ≡ dangling
get_value_dangles_example =
    get_value_dangles greedy 1 crowded "any" "other" 0 1 [] (λ v. done) crowded-Fits crowded_range
      crowded_patterns (greedy_matches 0 "any") refl (greedy_matches 1 "other")

-- A structured fact, and a query with a key in quotes.
abbrev disks : Collection
disks = record empty_collection {
  facts =
      field "disks"
        (map_value false
          (field "sda.1" (array_value false (cons (string_value false "ext4") nil)) end))
        end;
}

abbrev disk_path : List Key
disk_path =
    record { quoted = false; text = "disks" }
    ∷ record { quoted = true; text = "sda.1" }
    ∷ record { quoted = false; text = "0" }
    ∷ []

disk_missing : get_value heap (exec heap 0) (spell_path disk_path) disks ≡ returned (none, disks)
unfolding get_value exec find
disk_missing = refl

query_value-spell_path_example :
    query_value heap (exec heap 0) (spell_path disk_path) disks
    ≡ descend heap (exec heap 0) disk_path none disks
query_value-spell_path_example =
    query_value-spell_path heap (exec heap 0) disk_path disks
      ((refl, refl, refl), ((refl, refl, refl), ((refl, refl, refl), tt))) disk_missing

disk_found :
    query_value heap (exec heap 0) (spell_path disk_path) disks ≡ returned (text_of "ext4", disks)
unfolding query_value exec find
disk_found = refl

abbrev two_fields : Fields
two_fields = field "a" (string_value false "1") (field "c" (string_value false "3") end)

two_fields-IsSorted : IsSorted two_fields
unfolding str_ltb
two_fields-IsSorted = (refl, tt)
