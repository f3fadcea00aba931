-- ===== src/Worker/Mesh.antt =====
-- `generate_chunks` of apps/worker/app/tasks/mesh.py, which sends a model to the converter of its format.
-- Python's `str.lower` and what Celery's `send_task` answers are parameters.
pub mod Converted
pub mod Tests
use Prim.Native.String.{◌++◌}
use mathlib.Core.List.{◌++◌ as list_append}
use open_format_3d_viewer.Prelude.{
  String, Option, none, some, [], ◌∷◌, ◌==◌, string_eq, if◌then◌else◌,
}
use open_format_3d_viewer.Worker.Scan.{Got, got, os_error, other_error}
use open_format_3d_viewer.Worker.Common.{
  LockStore, World, ModelRow, Sent, get_model_row, update_model_status,
}

-- `_FORMAT_TO_TASK.get(file_format)`
abbrev pub format_to_task : String → Option String
format_to_task format =
    if format == "step"
    then some "app.tasks.step.process_step"
    else if format == "stp"
    then some "app.tasks.step.process_step"
    else if format == "gltf"
    then some "app.tasks.gltf.process_gltf"
    else if format == "glb"
    then some "app.tasks.gltf.process_gltf"
    else if format == "obj"
    then some "app.tasks.obj.process_obj"
    else if format == "stl"
    then some "app.tasks.stl.process_stl"
    else none

pub data Routed : Type 0 where
  model_not_found : Routed
  no_processor : (message : String) → Routed
  dispatched : (task_name : String) → Routed
  raised : (message : String) → Routed

abbrev pub converter_task : (model_id task_name : String) → Sent
converter_task model_id task_name = record {
  task = task_name;
  args = model_id ∷ [];
  payload = [];
  queue = "mesh";
}

abbrev no_processor_message : (model_id file_format : String) → String
no_processor_message model_id format =
    "No processor registered for format '" ++ format ++ "' (model_id=" ++ model_id ++ ")"

module _ {L : LockStore} (lower : String → String) (send_task : Sent → Got (Unit {0}))
    (model_id : String) where
  -- An exception of `send_task` is nowhere caught.
  abbrev pub sent_to : (task_name : String) → Got (Unit {0}) → World L → Routed × World L
  sent_to task (got _) w =
      (dispatched task, record w { sent = list_append w.sent (converter_task model_id task ∷ []) })
  sent_to task (os_error message) w = (raised message, w)
  sent_to task (other_error message) w = (raised message, w)

  abbrev pub routed : (file_format : String) → Option String → World L → Routed × World L
  routed format none w =
      let message = no_processor_message model_id format in
      (no_processor message, update_model_status model_id "failed" none (some message) w)
  routed format (some task) w = sent_to task (send_task (converter_task model_id task)) w

  abbrev pub routed_row : Option ModelRow → World L → Routed × World L
  routed_row none w = (model_not_found, w)
  routed_row (some model) w =
      let format = lower model.format in routed format (format_to_task format) w

  unfoldable pub generate_chunks : World L → Routed × World L
  generate_chunks w = routed_row (get_model_row model_id w) w
