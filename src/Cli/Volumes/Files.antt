-- ===== src/Cli/Volumes/Files.antt =====
-- cli/src/main.rs, run_volumes: a file that was uploaded is downloaded as it was.

use quiltc.Prelude.{ℕ, String, ◌≡◌, refl, true, Option, some, str_eq, if◌then◌else◌}
use quiltc.Prelude.Maps.{lookup, lookup-put}
use quiltc.Control.Json.{Value, json, insert, str_lt, as_str}
use quiltc.Control.Json
use quiltc.Cli.Console.{Platform, Bytes, Console, ok, print, ◌>>=◌}
use quiltc.Cli.Volumes.{upload_body, save_download}

-- If the base64 of the bytes can be read back and the file can be written, then a response that holds what was
-- uploaded is saved as the same bytes, and no other file is changed.
pub save_download-upload_body :
    (p : Platform) (file src out response : String) (path : Option String) (mode : ℕ)
    (bytes : Bytes) (w : Console)
    → p.base64_decode (p.base64_encode bytes) ≡ some bytes
    → p.from_text response ≡ some (upload_body p file path mode bytes)
    → w.writable out ≡ true
    → ((save_download p src out response w).0 ≡ ok tt)
      × ((f : String)
          → lookup f (save_download p src out response w).1.files
            ≡ (if str_eq out f then some bytes else lookup f w.files))
unfolding save_download upload_body Json.insert Json.lookup str_lt print ◌>>=◌
save_download-upload_body p file src out response path mode bytes w decodes reads writes = (
  rw (reads, decodes, writes) refl,
  λ f. rw (reads, decodes, writes) (lookup-put out f bytes w.files),
)
