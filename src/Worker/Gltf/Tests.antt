-- ===== src/Worker/Gltf/Tests.antt =====
-- Files that gltf-validator refuses or passes, at concrete inputs.
use open_format_3d_viewer.Prelude.{true, ◌≡◌, refl, false, [], ◌∷◌}
use open_format_3d_viewer.Worker.Stl.Task.{value}
use open_format_3d_viewer.Worker.Tests.{down, idle}
use open_format_3d_viewer.Worker.Gltf.{
  GltfTools, report, no_pipeline, optimized_file, GltfReady, process_gltf,
}
use open_format_3d_viewer.Worker.Gltf.Rejected.{is_ready, process_gltf-refuses}

-- The storage answers, and the validator counts two errors.
abbrev strict : GltfTools
strict = record {
  shared = record down { download = λ key. value (3 ∷ 4 ∷ []) };
  suffix = λ key. ".glb";
  validator = λ file. report 2 0;
  pipeline = λ file. no_pipeline;
}

process_gltf-refuses_example :
    ((process_gltf strict "m" idle).1.uploads ≡ [])
    × (is_ready (process_gltf strict "m" idle).0 ≡ false)
process_gltf-refuses_example = process_gltf-refuses strict "m" idle (λ file. refl)

-- The validator counts two warnings, and gltf-pipeline writes another file.
abbrev lenient : GltfTools
lenient = record strict {
  validator = λ file. report 0 2;
  pipeline = λ file. optimized_file (5 ∷ []);
}

abbrev answer : GltfReady
answer = record {
  source_format = "glb";
  output_format = "glb";
  optimized = true;
  keys = "processed/m/input_optimized.glb" ∷ [];
  warnings = 2;
}
