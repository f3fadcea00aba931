-- ===== src/Worker/Scan/Verdict.antt =====
-- When a model's processing is started.
use mathlib.Core.List.{◌++◌ as list_append}
use open_format_3d_viewer.Prelude.{
  String, ◌≡◌, refl, Bool, true, false, Option, none, some, [], ◌∷◌, inl, inr, ◌⊎◌,
}
use open_format_3d_viewer.Worker.Chunks.{Bytes}
use open_format_3d_viewer.Worker.Common.{LockStore, World, ModelRow, find_model}
use open_format_3d_viewer.Worker.Scan.{
  Got, got, os_error, other_error, RetryRaises, again, itself, max_retries_exceeded, Scanner,
  ScanResult, clean, is_clean, processing_task, dispatch_processing_task, after_os_error, verdict,
  scanned, downloaded, found, scan_file, instream,
}

-- A clean answer of clamd to the whole file of the object.
abbrev pub ScannedClean : Scanner → (s3_key : String) → Type 0
ScannedClean s s3_key =
    (file : Bytes) × (s.download s3_key ≡ got file)
    × ((reply : String) × (s.clamd (instream file) ≡ got reply) × (is_clean s reply ≡ true))

module _ {L : LockStore} (s : Scanner) (model_id s3_key : String) where
  -- Nothing was sent; or the scan was clean and the model's processing task was sent, once.
  abbrev pub SendsClean : World L → ScanResult × World L → Type 0
  SendsClean w (r, v) =
      (v.sent ≡ w.sent)
      ⊎ (ScannedClean s s3_key
          × ((model : ModelRow) × (find_model model_id w.models ≡ some model)
              × ((r ≡ clean model.format)
                  × (v.sent ≡ list_append w.sent (processing_task model_id model.format ∷ [])))))

  SendsClean-after_os_error :
      (x : RetryRaises) (user m : String) (w : World L)
      → SendsClean w (after_os_error s model_id s3_key x user m w)
  SendsClean-after_os_error again user m w = inl refl
  SendsClean-after_os_error itself user m w = inl refl
  SendsClean-after_os_error max_retries_exceeded user m w = inl refl

  SendsClean-scanned :
      (file : Bytes) (g : Got String) (model : ModelRow) (w : World L)
      → s.download s3_key ≡ got file
      → s.clamd (instream file) ≡ g
      → find_model model_id w.models ≡ some model
      → SendsClean w (scanned s model_id s3_key g model w)
  SendsClean-scanned file (os_error m) model w d c e =
      SendsClean-after_os_error s.retry model.uploaded_by m w
  SendsClean-scanned file (other_error m) model w d c e = inl refl
  SendsClean-scanned file (got reply) model w d c e = by_verdict (is_clean s reply) refl
    where
      by_verdict :
          (b : Bool)
          → is_clean s reply ≡ b
          → SendsClean w (verdict s model_id s3_key b reply model w)
      by_verdict true v = by_broker (s.send_task (processing_task model_id model.format))
        where
          by_broker :
              (g : Got (Unit {0}))
              → SendsClean w (dispatch_processing_task s model_id s3_key g model w)
          by_broker (got _) = inr ((file, d, (reply, c, v)), (model, e, (refl, refl)))
          by_broker (os_error m) = SendsClean-after_os_error s.retry model.uploaded_by m w
          by_broker (other_error m) = inl refl
      by_verdict false v = inl refl

  SendsClean-downloaded :
      (g : Got Bytes) (model : ModelRow) (w : World L)
      → s.download s3_key ≡ g
      → find_model model_id w.models ≡ some model
      → SendsClean w (downloaded s model_id s3_key g model w)
  SendsClean-downloaded (got file) model w d e =
      SendsClean-scanned file (s.clamd (instream file)) model w d refl e
  SendsClean-downloaded (os_error m) model w d e =
      SendsClean-after_os_error s.retry model.uploaded_by m w
  SendsClean-downloaded (other_error m) model w d e = inl refl

  SendsClean-found :
      (o : Option ModelRow) (w : World L)
      → find_model model_id w.models ≡ o
      → SendsClean w (found s model_id s3_key o w)
  SendsClean-found none w e = inl refl
  SendsClean-found (some model) w e = SendsClean-downloaded (s.download s3_key) model w refl e

  -- A scan sends nothing to the processing queues, or clamd has answered the whole file with a text
  -- that ends in OK, and then exactly the task of the model's format is sent.
  pub scan_file-SendsClean : (w : World L) → SendsClean w (scan_file s model_id s3_key w)
  unfolding scan_file
  scan_file-SendsClean w = SendsClean-found (find_model model_id w.models) w refl
