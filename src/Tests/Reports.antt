-- ===== src/Tests/Reports.antt =====
-- What a machine reports to the built-in resolvers.
use facter.Base.{◌≡◌, none, some, true, [], ◌∷◌, All}
use facter.Base.Int.{pos}
use facter.Resolvers.Uptime.{Format}
use facter.Resolvers.Profiler.{Profile}
use facter.Resolvers.Declared.{are_declared}
use facter.Resolvers.Declared.Builtins.{Reports, built_ins, builtins-are_declared}
use facter.Linux.Collecting.{collect_system}
use facter.Tests.Builtins.{firmware, keys, small_memory, plain_units, machine as two_interfaces}
use facter.Tests.Surveys.{machine as linux}

abbrev laptop : Profile
laptop = record {
  boot_mode = "normal_boot";
  boot_rom_version = "";
  boot_volume = "Macintosh HD";
  processor_name = "";
  processor_speed = "";
  kernel_version = "";
  l2_cache_per_core = "";
  l3_cache = "";
  computer_name = "";
  model_identifier = "";
  model_name = "";
  cores = "4";
  system_version = "";
  processors = "";
  memory = "";
  hardware_uuid = "";
  secure_virtual_memory = "";
  serial_number = "";
  smc_version = "";
  uptime = "";
  username = "";
}

abbrev reports : Reports
reports = record {
  dmi = firmware;
  uptime = pos 90000;
  ssh = keys;
  networking = two_interfaces;
  memory = small_memory;
  system = collect_system linux (some "Linux") none;
  profile = laptop;
  identity = record {
    user_id = some (pos 0);
    user_name = "root";
    group_id = none;
    group_name = "root";
  };
  filesystem = record { mountpoints = []; filesystems = "ext4" ∷ []; partitions = [] };
  disks = record { name = "sda"; vendor = "ATA"; model = ""; product = ""; size = 512 } ∷ [];
}

abbrev format : Format
format = record { clock = λ h m. "hours"; days = λ d. "days" }

builtins-are_declared_example :
    All (λ (r, adds). are_declared r adds ≡ true) (built_ins linux plain_units format reports)
builtins-are_declared_example = builtins-are_declared linux plain_units format reports
