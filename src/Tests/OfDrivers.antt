-- ===== src/Tests/OfDrivers.antt =====
-- A driver manifest.
use ezcap.Base.Json.{Json}
use ezcap.Base.Result.{ok}
use ezcap.Base.{true, ◌&&◌, List, [], ◌∷◌, length, leb, all, Text, codes, text_eq, ◌≡◌, refl, ◌↔◌}
use ezcap.Drivers.Manifest.{
  Capability, dns, DriverManifest, new_manifest, valid_version, parse_manifest,
}
use ezcap.Drivers.Manifest.Version.{is_group, groups, valid_version-groups}
use ezcap.Drivers.Manifest.Limits.{IsWithin, parse_manifest-IsWithin}
use ezcap.Drivers.Manifest.Allowlist.{
  path_within_allowlist, IsInsideSome, path_within_allowlist_iff,
}
use ezcap.Tests.Documents.{Tree, object, fields, array, items, string, number, one_document}

valid_version-groups_example : valid_version (codes "1.2.3.4") ≡ (
    (is_group (groups (codes "1.2.3.4")).0 && all is_group (groups (codes "1.2.3.4")).1)
    && (leb 1 (length (groups (codes "1.2.3.4")).1) && leb (length (groups (codes "1.2.3.4")).1) 3))
valid_version-groups_example = valid_version-groups (codes "1.2.3.4")

abbrev paths : List Text
paths = codes "/opt/drivers" ∷ codes "/home/drivers/" ∷ []

path_within_allowlist_example :
    (path_within_allowlist (codes "/opt/drivers/a.lua") paths ≡ true)
    ↔ IsInsideSome (codes "/opt/drivers/a.lua") paths
path_within_allowlist_example = path_within_allowlist_iff (codes "/opt/drivers/a.lua") paths

abbrev text : Text
text = codes "{...}"

abbrev watcher : Tree
watcher = object (
    fields (
      (codes "name", string (codes "dns-watch"))
      ∷ (codes "version", string (codes "1.0"))
      ∷ (codes "script", string (codes "/opt/drivers/a.lua"))
      ∷ (codes "capabilities", array (items (string (codes "dns") ∷ [])))
      ∷ (codes "event_types", array (items (string (codes "dns") ∷ [])))
      ∷ (codes "max_endpoints", number 4)
      ∷ []))

abbrev library : Json
library = one_document text watcher (codes "{}")

abbrev watching : DriverManifest
watching = record new_manifest {
  name = codes "dns-watch";
  version = codes "1.0";
  script_path = codes "/opt/drivers/a.lua";
  capabilities = dns ∷ [];
  event_types = codes "dns" ∷ [];
  max_endpoints = 4;
}

watching-parse_manifest : parse_manifest library text new_manifest ≡ ok watching
unfolding parse_manifest text_eq ezcap.Drivers.Manifest.valid_name valid_version
    ezcap.Drivers.Manifest.capability_from_name ezcap.Drivers.Manifest.insert_capability
watching-parse_manifest = refl

parse_manifest-IsWithin_example : IsWithin watching
parse_manifest-IsWithin_example =
    parse_manifest-IsWithin library text watching watching-parse_manifest
