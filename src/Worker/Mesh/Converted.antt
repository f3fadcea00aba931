-- ===== src/Worker/Mesh/Converted.antt =====
-- The way of an accepted upload through the scan and the mesh queue to a converter.
use mathlib.Core.List.{◌++◌ as list_append}
use open_format_3d_viewer.Prelude.{
  String, ◌≡◌, refl, ◌∙◌, ap, true, false, some, List, [], ◌∷◌, inl, inr, ◌⊎◌, string_eq, ◌==◌,
  arith,
}
use open_format_3d_viewer.Uploads.Filenames.{one_of}
use open_format_3d_viewer.Uploads.Service.{ext_to_format}
use open_format_3d_viewer.Worker.Common.{LockStore, World, ModelRow, Sent, find_model}
use open_format_3d_viewer.Worker.Stl.Process.{task_name}
use open_format_3d_viewer.Worker.Gltf.{gltf_task_name}
use open_format_3d_viewer.Worker.Scan.{
  Scanner, Got, got, ScanResult, clean, processing_task, scan_file,
}
use open_format_3d_viewer.Worker.Scan.Verdict.{ScannedClean}
use open_format_3d_viewer.Worker.Mesh.{dispatched, format_to_task, converter_task, generate_chunks}

-- The names under which the converters are registered.
abbrev pub converters : List String
converters =
    "app.tasks.step.process_step" ∷ gltf_task_name ∷ "app.tasks.obj.process_obj" ∷ task_name ∷ []

-- What `str.lower` does with the formats that uploads accept.
abbrev pub Lowered : (String → String) → Type 0
Lowered lower = (ext format : String) → ext_to_format ext ≡ some format → lower format ≡ format

-- The broker takes every task.
abbrev pub Takes : (Sent → Got (Unit {0})) → Type 0
Takes send_task = (m : Sent) → send_task m ≡ got tt

-- Either the model is an IFC file, or its format has one of the converters.
abbrev pub HasConverter : (format : String) → Type 0
HasConverter format =
    (format ≡ "ifc")
    ⊎ (((format == "ifc") ≡ false)
        × ((task : String) × (format_to_task format ≡ some task) × (one_of converters task ≡ true)))

abbrev OneOfFormats : String → Type 0
OneOfFormats f =
    (f ≡ "ifc")
    ⊎ (f ≡ "gltf")
    ⊎ (f ≡ "glb")
    ⊎ (f ≡ "step")
    ⊎ (f ≡ "stp")
    ⊎ (f ≡ "obj")
    ⊎ (f ≡ "stl")

ext_to_format-OneOfFormats :
    (ext format : String) → ext_to_format ext ≡ some format → OneOfFormats format
ext_to_format-OneOfFormats ext format h = ground arith

routed_as :
    {g task : String} (f : String)
    → f ≡ g
    → (g == "ifc") ≡ false
    → format_to_task g ≡ some task
    → one_of converters task ≡ true
    → HasConverter f
routed_as f e other known named = inr (rw e other, (_, ap format_to_task e ∙ known, named))

ext_to_format-HasConverter :
    (ext format : String) → ext_to_format ext ≡ some format → HasConverter format
ext_to_format-HasConverter ext format h = elim (ext_to_format-OneOfFormats ext format h) [
  | inl e ↦ inl e
  | inr (inl e) ↦ routed_as format e refl refl refl
  | inr (inr (inl e)) ↦ routed_as format e refl refl refl
  | inr (inr (inr (inl e))) ↦ routed_as format e refl refl refl
  | inr (inr (inr (inr (inl e)))) ↦ routed_as format e refl refl refl
  | inr (inr (inr (inr (inr (inl e))))) ↦ routed_as format e refl refl refl
  | inr (inr (inr (inr (inr (inr e))))) ↦ routed_as format e refl refl refl
]

module _ {L : LockStore} (s : Scanner) (model_id s3_key : String) where
  -- A clean scan sends the model's processing task, if the broker takes it.
  scan_file-clean :
      (w : World L) (model : ModelRow)
      → find_model model_id w.models ≡ some model
      → ScannedClean s s3_key
      → Takes s.send_task
      → scan_file s model_id s3_key w ≡ (
        clean model.format,
        record w { sent = list_append w.sent (processing_task model_id model.format ∷ []) },
      )
  unfolding scan_file
  scan_file-clean w model f (file, got_file, (reply, replied, ok)) up =
      rw (f, got_file, replied, ok, up (processing_task model_id model.format)) refl

module _ {L : LockStore} (lower : String → String) (send_task : Sent → Got (Unit {0}))
    (model_id : String) where
  generate_chunks-dispatched :
      (x : World L) (later : ModelRow) (format task : String)
      → find_model model_id x.models ≡ some later
      → lower later.format ≡ format
      → format_to_task format ≡ some task
      → Takes send_task
      → generate_chunks lower send_task model_id x ≡ (
        dispatched task,
        record x { sent = list_append x.sent (converter_task model_id task ∷ []) },
      )
  unfolding generate_chunks
  generate_chunks-dispatched x later format task f e t up =
      rw (f, e, t, up (converter_task model_id task)) refl

-- From the upload's extension to the converter: after the scan, and at any later time, `x`, at which the
-- model's row has the same format.
abbrev pub IsConverted :
    {L : LockStore}
    → (lower : String → String) → (send_task : Sent → Got (Unit {0})) → (model_id format : String)
    → (w x : World L) → ScanResult × World L
    → Type 0
IsConverted lower send_task model_id format w x (r, v) =
    (r ≡ clean format)
    × (v.sent ≡ list_append w.sent (processing_task model_id format ∷ []))
    × (((processing_task model_id format).task ≡ "app.tasks.ifc.process_model")
        ⊎ (((processing_task model_id format).task ≡ "app.tasks.mesh.generate_chunks")
            × ((task : String) × (one_of converters task ≡ true)
                × (generate_chunks lower send_task model_id x ≡ (
                  dispatched task,
                  record x { sent = list_append x.sent (converter_task model_id task ∷ []) },
                )))))

-- If the broker takes the tasks that are sent to it, a model whose format comes from an accepted extension,
-- and whose file the scan finds clean, is converted: the scan sends its processing task, which is that of
-- IFC files, or one that, run at any later time at which the row has the same format, sends the model to a
-- converter's task, and changes nothing else.
pub scan_file-converts :
    {L : LockStore} (s : Scanner) (lower : String → String) (send_task : Sent → Got (Unit {0}))
    (model_id s3_key ext : String) (w x : World L) (model later : ModelRow)
    → Takes s.send_task
    → Takes send_task
    → Lowered lower
    → ext_to_format ext ≡ some model.format
    → find_model model_id w.models ≡ some model
    → ScannedClean s s3_key
    → find_model model_id x.models ≡ some later
    → later.format ≡ model.format
    → IsConverted lower send_task model_id model.format w x (scan_file s model_id s3_key w)
scan_file-converts s lower send_task model_id s3_key ext w x model later up up_later lowered
      accepted found scanned found_later same =
    rw (scan_file-clean s model_id s3_key w model found scanned up) (
      refl,
      refl,
      elim (ext_to_format-HasConverter ext model.format accepted) [
        | inl ifc ↦ inl (rw ifc refl)
        | inr (other, (task, known, named)) ↦ inr (
          rw other refl,
          (
            task,
            named,
            generate_chunks-dispatched lower send_task model_id x later model.format task
                found_later (ap lower same ∙ lowered ext model.format accepted) known up_later,
          ),
        )
      ],
    )
