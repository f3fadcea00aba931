-- ===== src/Worker/Scan/Tests.antt =====
-- Runs of the antivirus scan.
use open_format_3d_viewer.Prelude.{◌≡◌, some, [], ◌∷◌, length, suc}
use open_format_3d_viewer.Worker.Chunks.{Bytes}
use open_format_3d_viewer.Worker.Tests.{idle}
use open_format_3d_viewer.Worker.Scan.{Scanner, got, itself, scan_file, instream}
use open_format_3d_viewer.Worker.Scan.Framing.{unframe, unframe-instream}
use open_format_3d_viewer.Worker.Scan.Verdict.{SendsClean, scan_file-SendsClean}

abbrev pub ok_scanner : Scanner
ok_scanner = record {
  download = λ key. got (83 ∷ 84 ∷ 76 ∷ []);
  clamd = λ stream. got "stream: OK";
  strip = λ s. s;
  replace = λ old new text. text;
  delete_object = λ key objects. objects;
  retry = itself;
  send_task = λ m. got tt;
}

scan_file-SendsClean_example :
    SendsClean ok_scanner "m" "raw/m.stl" idle (scan_file ok_scanner "m" "raw/m.stl" idle)
scan_file-SendsClean_example = scan_file-SendsClean ok_scanner "m" "raw/m.stl" idle

abbrev solid : Bytes
solid = 115 ∷ 111 ∷ 108 ∷ 105 ∷ 100 ∷ []

unframe-instream_example : unframe (suc (length solid)) (instream solid) ≡ some solid
unframe-instream_example = unframe-instream solid
