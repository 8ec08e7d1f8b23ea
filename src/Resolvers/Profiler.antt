-- ===== src/Resolvers/Profiler.antt =====
-- lib/src/facts/resolvers/system_profiler_resolver.cc, with the data of
-- lib/inc/internal/facts/resolvers/system_profiler_resolver.hpp.
pub mod Agrees
use facter.Base.{String, true, false, List, [], ◌∷◌, ◌++◌, map}
use facter.Values.{Fields, end}
use facter.Collection.{Resolver}
use facter.Resolvers.{Adds, publish, map_facts}
use facter.Resolvers.Both.{Both, Entry, both_all}

pub record Profile : Type 0 where
  pub boot_mode : String
  pub boot_rom_version : String
  pub boot_volume : String
  pub processor_name : String
  pub processor_speed : String
  pub kernel_version : String
  pub l2_cache_per_core : String
  pub l3_cache : String
  pub computer_name : String
  pub model_identifier : String
  pub model_name : String
  pub cores : String
  pub system_version : String
  pub processors : String
  pub memory : String
  pub hardware_uuid : String
  pub secure_virtual_memory : String
  pub serial_number : String
  pub smc_version : String
  pub uptime : String
  pub username : String

-- Each text with the name of its fact and its key in the structured fact.
abbrev pub profile_entries : Profile → List Entry
profile_entries d =
    ("sp_boot_mode", "boot_mode", d.boot_mode)
    ∷ ("sp_boot_rom_version", "boot_rom_version", d.boot_rom_version)
    ∷ ("sp_boot_volume", "boot_volume", d.boot_volume)
    ∷ ("sp_cpu_type", "processor_name", d.processor_name)
    ∷ ("sp_current_processor_speed", "processor_speed", d.processor_speed)
    ∷ ("sp_kernel_version", "kernel_version", d.kernel_version)
    ∷ ("sp_l2_cache_core", "l2_cache_per_core", d.l2_cache_per_core)
    ∷ ("sp_l3_cache", "l3_cache", d.l3_cache)
    ∷ ("sp_local_host_name", "computer_name", d.computer_name)
    ∷ ("sp_machine_model", "model_identifier", d.model_identifier)
    ∷ ("sp_machine_name", "model_name", d.model_name)
    ∷ ("sp_number_processors", "cores", d.cores)
    ∷ ("sp_os_version", "system_version", d.system_version)
    ∷ ("sp_packages", "processors", d.processors)
    ∷ ("sp_physical_memory", "memory", d.memory)
    ∷ ("sp_platform_uuid", "hardware_uuid", d.hardware_uuid)
    ∷ ("sp_secure_vm", "secure_virtual_memory", d.secure_virtual_memory)
    ∷ ("sp_serial_number", "serial_number", d.serial_number)
    ∷ ("sp_smc_version_system", "smc_version", d.smc_version)
    ∷ ("sp_uptime", "uptime", d.uptime)
    ∷ ("sp_user_name", "username", d.username)
    ∷ []

abbrev pub profile_names : List String
profile_names =
    "system_profiler" ∷ "sp_boot_mode" ∷ "sp_boot_rom_version" ∷ "sp_boot_volume" ∷ "sp_cpu_type"
    ∷ "sp_current_processor_speed" ∷ "sp_kernel_version" ∷ "sp_l2_cache_core" ∷ "sp_l3_cache"
    ∷ "sp_local_host_name" ∷ "sp_machine_model" ∷ "sp_machine_name" ∷ "sp_number_processors"
    ∷ "sp_os_version" ∷ "sp_packages" ∷ "sp_physical_memory" ∷ "sp_platform_uuid" ∷ "sp_secure_vm"
    ∷ "sp_serial_number" ∷ "sp_smc_version_system" ∷ "sp_uptime" ∷ "sp_user_name" ∷ []

unfoldable pub profile_both : Profile → Both
unfolding both_all
profile_both d = both_all (profile_entries d) ([], end)

unfoldable pub profile_adds : Profile → Adds
unfolding profile_both map_facts
profile_adds d =
    let (adds, fields) = profile_both d in adds ++ map_facts "system_profiler" false fields

unfoldable pub profile_resolver : Profile → Resolver
unfolding publish profile_adds
profile_resolver d = record {
  name = "system profiler";
  names = profile_names;
  regexes = [];
  body = publish (profile_adds d);
}
