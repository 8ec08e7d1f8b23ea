-- ===== src/Resolvers/Dmi.antt =====
-- lib/src/facts/resolvers/dmi_resolver.cc
use facter.Base.{String, List, [], ◌∷◌, ◌++◌, ◌==◌, if◌then◌else◌, is_empty_str, false}
use facter.Values.{Fields, end}
use facter.Collection.{Resolver}
use facter.Resolvers.{Adds, publish, text_facts, map_facts, text_field, map_field}

pub record Dmi : Type 0 where
  pub bios_vendor : String
  pub bios_version : String
  pub bios_release_date : String
  pub board_asset_tag : String
  pub board_manufacturer : String
  pub board_product_name : String
  pub board_serial_number : String
  pub chassis_asset_tag : String
  pub manufacturer : String
  pub product_name : String
  pub serial_number : String
  pub uuid : String
  pub chassis_type : String

abbrev pub dmi_names : List String
dmi_names =
    "dmi" ∷ "bios_vendor" ∷ "bios_version" ∷ "bios_release_date" ∷ "boardassettag"
    ∷ "boardmanufacturer" ∷ "boardproductname" ∷ "boardserialnumber" ∷ "chassisassettag"
    ∷ "manufacturer" ∷ "productname" ∷ "serialnumber" ∷ "uuid" ∷ "chassistype" ∷ []

abbrev pub bios : Dmi → Fields
unfolding text_field
bios d =
    text_field "release_date" d.bios_release_date
      (text_field "version" d.bios_version (text_field "vendor" d.bios_vendor end))

abbrev pub board : Dmi → Fields
unfolding text_field
board d = text_field "serial_number" d.board_serial_number (
    text_field "product" d.board_product_name (
      text_field "manufacturer" d.board_manufacturer
        (text_field "asset_tag" d.board_asset_tag end)))

abbrev pub product : Dmi → Fields
unfolding text_field
product d =
    text_field "uuid" d.uuid
      (text_field "serial_number" d.serial_number (text_field "name" d.product_name end))

abbrev pub chassis : Dmi → Fields
unfolding text_field
chassis d = text_field "type" d.chassis_type (text_field "asset_tag" d.chassis_asset_tag end)

unfoldable pub dmi_fields : Dmi → Fields
unfolding text_field map_field
dmi_fields d = map_field "chassis" (chassis d) (
    map_field "product" (product d) (
      map_field "board" (board d)
        (map_field "bios" (bios d) (text_field "manufacturer" d.manufacturer end))))

unfoldable pub dmi_adds : Dmi → Adds
unfolding text_facts map_facts dmi_fields
dmi_adds d =
    text_facts "bios_vendor" d.bios_vendor
    ++ (text_facts "bios_version" d.bios_version
        ++ (text_facts "bios_release_date" d.bios_release_date
            ++ (text_facts "boardassettag" d.board_asset_tag
                ++ (text_facts "boardmanufacturer" d.board_manufacturer
                    ++ (text_facts "boardproductname" d.board_product_name
                        ++ (text_facts "boardserialnumber" d.board_serial_number
                            ++ (text_facts "productname" d.product_name
                                ++ (text_facts "serialnumber" d.serial_number
                                    ++ (text_facts "uuid" d.uuid
                                        ++ (text_facts "chassisassettag" d.chassis_asset_tag
                                            ++ (text_facts "chassistype" d.chassis_type
                                                ++ (text_facts "manufacturer" d.manufacturer
                                                    ++ map_facts "dmi" false
                                                        (dmi_fields d)))))))))))))

unfoldable pub dmi_resolver : Dmi → Resolver
unfolding publish dmi_adds
dmi_resolver d = record {
  name = "desktop management interface";
  names = dmi_names;
  regexes = [];
  body = publish (dmi_adds d);
}

-- A type that is not in the table, "2" included, is unknown.
unfoldable pub to_chassis_description : String → String
to_chassis_description type =
    if is_empty_str type
    then String.[]
    else if type == "1"
    then "Other"
    else if type == "3"
    then "Desktop"
    else if type == "4"
    then "Low Profile Desktop"
    else if type == "5"
    then "Pizza Box"
    else if type == "6"
    then "Mini Tower"
    else if type == "7"
    then "Tower"
    else if type == "8"
    then "Portable"
    else if type == "9"
    then "Laptop"
    else if type == "10"
    then "Notebook"
    else if type == "11"
    then "Hand Held"
    else if type == "12"
    then "Docking Station"
    else if type == "13"
    then "All in One"
    else if type == "14"
    then "Sub Notebook"
    else if type == "15"
    then "Space-Saving"
    else if type == "16"
    then "Lunch Box"
    else if type == "17"
    then "Main System Chassis"
    else if type == "18"
    then "Expansion Chassis"
    else if type == "19"
    then "SubChassis"
    else if type == "20"
    then "Bus Expansion Chassis"
    else if type == "21"
    then "Peripheral Chassis"
    else if type == "22"
    then "Storage Chassis"
    else if type == "23"
    then "Rack Mount Chassis"
    else if type == "24"
    then "Sealed-Case PC"
    else "Unknown"
