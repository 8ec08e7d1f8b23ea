-- ===== src/Ruby/Module/Population.antt =====
-- How `module::facts` of lib/src/ruby/module.cc turns variables of the environment into custom
-- facts, with `fact::value` of lib/src/ruby/fact.cc that sets a value.
pub mod Override
use facter.Base.{String, true, List, [], ◌∷◌}
use facter.Ruby.Value.{Ruby}
use facter.Ruby.Fact.{Fact}
use facter.Ruby.Module.{Registry, add_fact}

-- `fact::value(VALUE)`
unfoldable pub set_value : Ruby → Fact → Fact
set_value v f = record f { value = v; resolved = true }

-- The callback of `add_environment_facts`, for the names in lower case and the values that the
-- collection has under them: it creates the fact and sets its value.
unfoldable pub add_environment : List (String × Ruby) → Registry → Registry
unfolding add_fact set_value
add_environment [] r = r
add_environment ((name, v) ∷ env) r = add_environment env (add_fact name (set_value v) r)
