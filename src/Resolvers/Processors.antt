-- ===== src/Resolvers/Processors.antt =====
-- lib/src/facts/resolvers/processor_resolver.cc, with the data of
-- lib/inc/internal/facts/resolvers/processor_resolver.hpp.
use facter.Base.{
  ℕ, ◌+◌, String, Bool, true, false, some, List, [], ◌∷◌, ◌++◌, if◌then◌else◌, ◌<>◌, ltb,
}
use facter.Base.Int.{ℤ, pos, negsuc}
use facter.Values.{
  Elements, nil, Fields, end, string_value, integer_value, array_value, map_value, add_field,
  add_element, no_elements,
}
use facter.Collection.{Resolver}
use facter.Resolvers.{Adds, publish, text_facts, text_field}

-- The speed is in Hz.
pub record Processors : Type 0 where
  pub physical_count : ℕ
  pub logical_count : ℕ
  pub models : List String
  pub speed : ℤ
  pub isa : String

abbrev pub processor_names : List String
processor_names = "processors" ∷ "processorcount" ∷ "physicalprocessorcount" ∷ "hardwareisa" ∷ []

-- `to_string`, `frequency`, and the regular expression `^processor[0-9]+$`
pub record Numbers : Type 0 where
  pub to_string : ℕ → String
  pub frequency : ℤ → String
  pub is_processor : String → Bool

abbrev pub is_positive : ℤ → Bool
is_positive (pos n) = ltb 0 n
is_positive (negsuc n) = false

module _ (numbers : Numbers) where
  -- The facts and the elements of the loop over the models.
  unfoldable pub model_facts : ℕ → List String → Adds
  model_facts processor [] = []
  model_facts processor (model ∷ models) =
      ("processor" <> numbers.to_string processor, string_value true model)
      ∷ model_facts (processor + 1) models

  unfoldable pub model_elements : List String → Elements → Elements
  unfolding add_element
  model_elements [] acc = acc
  model_elements (model ∷ models) acc =
      model_elements models (add_element (some (string_value false model)) acc)

  abbrev pub models_field : Elements → Fields → Fields
  unfolding add_field
  models_field models cpus =
      if no_elements models then cpus else add_field "models" (some (array_value false models)) cpus

  unfoldable pub processor_fields : Processors → Fields
  unfolding add_field text_field model_elements
  processor_fields d =
      let counted = add_field "physicalcount" (some (integer_value false (pos d.physical_count))) (
        add_field "count" (some (integer_value false (pos d.logical_count)))
          (text_field "isa" d.isa end)) in
      models_field (model_elements d.models nil) (
        if is_positive d.speed
        then add_field "speed" (some (string_value false (numbers.frequency d.speed))) counted
        else counted)

  unfoldable pub processor_adds : Processors → Adds
  unfolding text_facts model_facts processor_fields
  processor_adds d =
      text_facts "hardwareisa" d.isa
      ++ ("processorcount", integer_value true (pos d.logical_count))
        ∷ ("physicalprocessorcount", integer_value true (pos d.physical_count))
        ∷ (model_facts 0 d.models ++ ("processors", map_value false (processor_fields d)) ∷ [])

  unfoldable pub processor_resolver : Processors → Resolver
  unfolding publish processor_adds
  processor_resolver d = record {
    name = "processor";
    names = processor_names;
    regexes = numbers.is_processor ∷ [];
    body = publish (processor_adds d);
  }
