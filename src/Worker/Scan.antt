-- ===== src/Worker/Scan.antt =====
-- tasks/scan.py: one run of `scan_file`, and the stream that `_clamd_scan` sends. The storage, clamd,
-- `str.strip`, `str.replace`, and Celery's `self.retry` and `send_task` are the fields of `Scanner`.
pub mod Framing
pub mod Verdict
pub mod Tests
use Prim.Native.String.{◌++◌}
use Prim.Native.String
use mathlib.Core.List.{◌++◌ as list_append}
use open_format_3d_viewer.Prelude.{
  clip, ℕ, zero, suc, ◌*◌, ◌/◌, ◌%◌, ◌^◌, ◌≡◌, String, Bool, true, false, ◌||◌, Option, none, some,
  List, [], ◌∷◌, length, ◌==◌, nat_eq, string_eq, if◌then◌else◌,
}
use open_format_3d_viewer.Worker.Chunks.{Bytes, read_loop}
use open_format_3d_viewer.Worker.Common.{
  LockStore, World, ModelRow, Sent, Event, model_failed, get_model_row, update_model_status,
  publish,
}

-- A call returns, or raises `OSError` (a socket's errors are its subclasses) or another exception.
pub data Got {ℓ} (A : Type ℓ) : Type ℓ where
  got : A → Got A
  os_error other_error : (message : String) → Got A

-- What `self.retry(exc=exc)` raises: `Retry`, the exception itself, or `MaxRetriesExceededError`.
pub data RetryRaises : Type 0 where
  again itself max_retries_exceeded : RetryRaises

pub record Scanner : Type 0 where
  pub download : String → Got Bytes
  pub clamd : Bytes → Got String
  pub strip : String → String
  pub replace : (old new text : String) → String
  pub delete_object : String → List (String × Bytes) → List (String × Bytes)
  pub retry : RetryRaises
  pub send_task : Sent → Got (Unit {0})

pub data ScanResult : Type 0 where
  model_not_found : ScanResult
  clean : (dispatched : String) → ScanResult
  infected : (virus : String) → ScanResult
  error retried : ScanResult
  raised : (message : String) → ScanResult

-- `struct.pack("!I", n)`
abbrev pub pack_u32 : ℕ → Bytes
pack_u32 n = n / 16777216 % 256 ∷ n / 65536 % 256 ∷ n / 256 % 256 ∷ n % 256 ∷ []

abbrev pub frames : List Bytes → Bytes
frames [] = pack_u32 0
frames (chunk ∷ chunks) = list_append (list_append (pack_u32 (length chunk)) chunk) (frames chunks)

-- What follows b"zINSTREAM\0" on the socket.
unfoldable pub instream : Bytes → Bytes
unfolding read_loop
instream file = frames (read_loop (suc (length file)) 65536 file)

-- `s.endswith("OK")`
abbrev pub ends_ok : String → Bool
ends_ok String.[] = false
ends_ok (String.◌∷◌ c s) = String.◌∷◌ c s == "OK" || ends_ok s

module _ (s : Scanner) where
  abbrev pub is_clean : String → Bool
  is_clean result = ends_ok (s.strip result)

  abbrev virus_name : String → String
  virus_name result = s.strip (s.replace "FOUND" "" (s.replace "stream:" "" result))

abbrev pub processing_task : (model_id file_format : String) → Sent
processing_task model_id file_format = record {
  task =
      if file_format == "ifc"
      then "app.tasks.ifc.process_model"
      else "app.tasks.mesh.generate_chunks";
  args = model_id ∷ [];
  payload = [];
  queue = if file_format == "ifc" then "ifc" else "mesh";
}

module _ {L : LockStore} (s : Scanner) (model_id s3_key : String) where
  abbrev pub reject : (user_id virus : String) → World L → World L
  reject user_id virus w =
      let marked : World L =
        update_model_status model_id "failed" none
          (some ("Antivirus scan rejected file: " ++ virus)) w in
      let deleted : World L = record marked {
        raw_objects = s.delete_object s3_key marked.raw_objects;
      } in
      publish (model_failed user_id model_id ("File rejected by antivirus scan: " ++ virus)) deleted

  abbrev pub give_up : (user_id message : String) → World L → World L
  give_up user_id message w =
      publish (model_failed user_id model_id message)
        (update_model_status model_id "failed" none (some message) w)

  abbrev pub after_os_error :
      RetryRaises → (user_id message : String) → World L → ScanResult × World L
  after_os_error again user_id message w = (retried, w)
  after_os_error itself user_id message w = (raised message, w)
  after_os_error max_retries_exceeded user_id message w =
      (error, give_up user_id ("Antivirus scan unreachable after retries: " ++ clip 200 message) w)

  -- `except Exception`
  abbrev pub unexpected : (user_id message : String) → World L → ScanResult × World L
  unexpected user_id message w =
      (error, give_up user_id ("Antivirus scan failed unexpectedly: " ++ clip 200 message) w)

  -- `send_task` stands in the `try` too.
  abbrev pub dispatch_processing_task : Got (Unit {0}) → ModelRow → World L → ScanResult × World L
  dispatch_processing_task (got _) model w = (
    clean model.format,
    record w { sent = list_append w.sent (processing_task model_id model.format ∷ []) },
  )
  dispatch_processing_task (os_error message) model w =
      after_os_error s.retry model.uploaded_by message w
  dispatch_processing_task (other_error message) model w = unexpected model.uploaded_by message w

  abbrev pub verdict :
      (is_clean : Bool) → (result : String) → ModelRow → World L → ScanResult × World L
  verdict true result model w =
      dispatch_processing_task (s.send_task (processing_task model_id model.format)) model w
  verdict false result model w =
      (infected (virus_name s result), reject model.uploaded_by (virus_name s result) w)

  -- The body of the `try` from the scan on, with the handlers of its exceptions.
  abbrev pub scanned : Got String → ModelRow → World L → ScanResult × World L
  scanned (got result) model w = verdict (is_clean s result) result model w
  scanned (os_error message) model w = after_os_error s.retry model.uploaded_by message w
  scanned (other_error message) model w = unexpected model.uploaded_by message w

  abbrev pub downloaded : Got Bytes → ModelRow → World L → ScanResult × World L
  downloaded (got file) model w = scanned (s.clamd (instream file)) model w
  downloaded (os_error message) model w = scanned (os_error message) model w
  downloaded (other_error message) model w = scanned (other_error message) model w

  abbrev pub found : Option ModelRow → World L → ScanResult × World L
  found none w = (model_not_found, w)
  found (some model) w = downloaded (s.download s3_key) model w

  unfoldable pub scan_file : World L → ScanResult × World L
  unfolding instream
  scan_file w = found (get_model_row model_id w) w
