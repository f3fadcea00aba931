-- ===== src/Worker/Gltf/Stored.antt =====
-- What process_gltf has stored when it answers that the model is ready.
use open_format_3d_viewer.Prelude.{String, nat_eq, string_eq}
use open_format_3d_viewer.Worker.Common.{LockStore, World}
use open_format_3d_viewer.Worker.Gltf.{GltfTools, GltfReady, GltfResult, ready}
use open_format_3d_viewer.Worker.Gltf.Stages.{IsStored}

abbrev ready_or : GltfReady → GltfResult → GltfReady
ready_or q (ready r) = r
ready_or q x = q

module _ {L : LockStore} (t : GltfTools) (k : String) (w : World L) where
  abbrev Ends : GltfResult × World L → Type 0
  Ends (ready r, v) = IsStored t k w r v
  Ends (x, v) = Unit
