-- ===== src/Linux/Hypervisor.antt =====
-- The order of the tests for a hypervisor: lib/src/facts/linux/virtualization_resolver.cc and
-- lib/src/facts/resolvers/virtualization_resolver.cc.
use facter.Base.{
  String, ◌≡◌, refl, sym, ap, ◌∙◌, true, false, not, Option, some, List, [], ◌∷◌, ◌==◌, any,
  Bool-cases, inl, inr, if◌then◌else◌, is_empty_str,
}
use facter.Values.{Value, string_value, boolean_value}
use facter.Collection.{Action, done, add_fact, get_fact}
use facter.Linux.{Machine}
use facter.Linux.Virtualization.{
  get_cgroup_vm, gce_vm, get_what_vm, get_vmware_vm, get_openvz_vm, get_vserver_vm, get_xen_vm,
  product_name_vm, get_lspci_vm, string_of, host_names, is_virtual, add_hypervisor, if_found,
  last_tests, middle_tests, resolve,
}

-- The facts that are added where the facts that are asked for have the values given.
abbrev pub additions : (String → Option Value) → Action → List (String × Option Value)
additions answer done = []
additions answer (add_fact name v rest) = (name, v) ∷ additions answer rest
additions answer (get_fact name rest) = additions answer (rest (answer name))

abbrev pub first_nonempty : List String → String
first_nonempty [] = ""
first_nonempty (s ∷ ss) = if is_empty_str s then first_nonempty ss else s

-- What the nine tests say.
abbrev pub findings : Machine → (String → Option Value) → List String
findings m answer =
    get_cgroup_vm m
    ∷ gce_vm (string_of (answer "bios_vendor"))
    ∷ get_what_vm m
    ∷ get_vmware_vm m
    ∷ get_openvz_vm m
    ∷ get_vserver_vm m
    ∷ get_xen_vm m
    ∷ product_name_vm (string_of (answer "productname"))
    ∷ get_lspci_vm m
    ∷ []

abbrev pub or_physical : String → String
or_physical s = if is_empty_str s then "physical" else s

abbrev pub hypervisor_facts : String → List (String × Option Value)
hypervisor_facts hypervisor =
    ("is_virtual", some (boolean_value false (not (any (λ name. name == hypervisor) host_names))))
    ∷ ("virtual", some (string_value false hypervisor))
    ∷ []

-- What the action adds is named by the first of the texts that is not empty.
record Decides (answer : String → Option Value) (next : Action) (ss : List String) : Type 0 where
  pub adds : additions answer next ≡ hypervisor_facts (or_physical (first_nonempty ss))

first-skip :
    (s : String) (ss : List String)
    → is_empty_str s ≡ true
    → first_nonempty (s ∷ ss) ≡ first_nonempty ss
first-skip s ss e = rw e refl

first-take : (s : String) (ss : List String) → is_empty_str s ≡ false → first_nonempty (s ∷ ss) ≡ s
first-take s ss e = rw e refl

if_found-next : (s : String) (next : Action) → is_empty_str s ≡ true → if_found s next ≡ next
if_found-next s next e = rw e refl

if_found-add :
    (s : String) (next : Action) → is_empty_str s ≡ false → if_found s next ≡ add_hypervisor s
if_found-add s next e = rw e refl

or_physical-empty : (s : String) → is_empty_str s ≡ true → or_physical s ≡ "physical"
or_physical-empty s e = rw e refl

or_physical-first : (s : String) → or_physical s ≡ or_physical (first_nonempty (s ∷ []))
or_physical-first s = elim (Bool-cases (is_empty_str s)) [
  | inl e ↦ or_physical-empty s e ∙ ap or_physical (sym (first-skip s [] e))
  | inr e ↦ ap or_physical (sym (first-take s [] e))
]

module _ (answer : String → Option Value) where
  additions-add_hypervisor :
      (s : String) → additions answer (add_hypervisor s) ≡ hypervisor_facts (or_physical s)
  unfolding add_hypervisor is_virtual
  additions-add_hypervisor s = refl

  abbrev named : String → List (String × Option Value)
  named s = hypervisor_facts (or_physical s)

  step :
      (s : String) (next : Action) (ss : List String)
      → Decides answer next ss
      → Decides answer (if_found s next) (s ∷ ss)
  step s next ss d = elim (Bool-cases (is_empty_str s)) [
    | inl e ↦ record {
      adds =
          ap (additions answer) (if_found-next s next e)
          ∙ (d.adds ∙ ap named (sym (first-skip s ss e)));
    }
    | inr e ↦ record {
      adds =
          ap (additions answer) (if_found-add s next e)
          ∙ (additions-add_hypervisor s ∙ ap named (sym (first-take s ss e)));
    }
  ]

  asked :
      (name : String) (rest : Option Value → Action) (ss : List String)
      → Decides answer (rest (answer name)) ss
      → Decides answer (get_fact name rest) ss
  asked name rest ss d = record { adds = d.adds }

  last : (s : String) → Decides answer (add_hypervisor s) (s ∷ [])
  last s = record { adds = additions-add_hypervisor s ∙ ap hypervisor_facts (or_physical-first s) }

  module _ (m : Machine) where
    resolve-Decides : Decides answer (resolve m) (findings m answer)
    unfolding resolve middle_tests last_tests
    resolve-Decides = step (get_cgroup_vm m) _ _ (
        asked "bios_vendor" _ _ (
          step (gce_vm (string_of (answer "bios_vendor"))) _ _ (
            step (get_what_vm m) _ _ (
              step (get_vmware_vm m) _ _ (
                step (get_openvz_vm m) _ _ (
                  step (get_vserver_vm m) _ _ (
                    step (get_xen_vm m) _ _ (
                      asked "productname" _ _ (
                        step (product_name_vm (string_of (answer "productname"))) _ _
                          (last (get_lspci_vm m)))))))))))

    -- The tests are made in the order of the list, and the first that finds something names the
    -- hypervisor, which else is `physical`; the machine is virtual unless that is a host's name.
    pub additions-resolve :
        additions answer (resolve m)
        ≡ hypervisor_facts (or_physical (first_nonempty (findings m answer)))
    additions-resolve = resolve-Decides.adds
