-- ===== src/Worker/Mesh/Tests.antt =====
-- Models on their way to a converter, at concrete inputs.
use open_format_3d_viewer.Prelude.{◌≡◌, refl, some}
use open_format_3d_viewer.Worker.Common.{World, find_model}
use open_format_3d_viewer.Worker.Tests.{key_list, idle, pending}
use open_format_3d_viewer.Worker.Scan.{got, scan_file}
use open_format_3d_viewer.Worker.Scan.Tests.{ok_scanner}
use open_format_3d_viewer.Worker.Mesh.Converted.{IsConverted, scan_file-converts}

pending_found : find_model "m" idle.models ≡ some pending
unfolding find_model
pending_found = refl

abbrev after_scan : World key_list
after_scan = (scan_file ok_scanner "m" "raw/m.stl" idle).1

scan_file-converts_example :
    IsConverted
      (λ x. x)
      (λ m. got tt)
      "m"
      "stl"
      idle
      after_scan
      (scan_file ok_scanner "m" "raw/m.stl" idle)
unfolding scan_file find_model
scan_file-converts_example =
    scan_file-converts ok_scanner (λ x. x) (λ m. got tt) "m" "raw/m.stl" ".stl" idle after_scan
      pending pending (λ m. refl) (λ m. refl) (λ ext format h. refl) refl pending_found
      (_, refl, (_, refl, refl)) pending_found refl
