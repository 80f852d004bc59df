-- ===== src/Cli/Volumes.antt =====
-- cli/src/main.rs: run_volumes.
pub mod Files
use Prim.Native.String.{◌++◌}
use quiltc.Prelude.{ℕ, String, true, Option, none, some, [], ◌∷◌, length}
use quiltc.Prelude.Text.{strip_prefix}
use quiltc.Control.Json.{Value, boolean, string, json, as_str}
use quiltc.Control.Json
use quiltc.Cli.Http.{get, post, delete}
use quiltc.Cli.Console.{
  Platform, Bytes, M, ◌>>=◌, ◌>>◌, some_or, read_file, write_file, print, json_value,
}
use quiltc.Cli.Client.{Client, send_json, call_bytes}
use quiltc.Cli.Encode.{encode_path}
use quiltc.Cli.Args.{nat_value, parse_json_arg, value_or}

pub data VolumeCmd : Type 0 where
  list : VolumeCmd
  create : (spec : String) → VolumeCmd
  get_volume : (name : String) → VolumeCmd
  delete_volume : (name : String) → VolumeCmd
  upload : (name file : String) (path : Option String) (mode : ℕ) → VolumeCmd
  download : (name : String) (path : Option String) (out : String) → VolumeCmd
  archive_upload : (name archive path : String) (strip_components : ℕ) → VolumeCmd

module _ (p : Platform) where
  unfoldable pub upload_body : String → Option String → ℕ → Bytes → Value
  upload_body file path mode bytes = json (
      ("path", string (value_or ("/" ++ value_or "file" (p.file_name file)) path))
      ∷ ("content", string (p.base64_encode bytes))
      ∷ ("mode", nat_value mode)
      ∷ [])

  abbrev without_slash : String → String
  without_slash s = value_or s (strip_prefix "/" s)

  -- The path in the volume, for the path that is given and the file's
  abbrev source_path : Option String → String → String
  source_path path out = without_slash (value_or (value_or "file" (p.file_name out)) path)

  -- The file that a response holds is written.
  unfoldable pub save_download : String → String → String → M String Unit
  save_download src out body = do
    v ← some_or "Failed to parse file response JSON" (p.from_text body)
    content ← some_or "file response missing content" (as_str (Json.get "content" v))
    decoded ← some_or "Failed to base64-decode file content" (p.base64_decode content)
    write_file ("Failed to write " ++ p.debug_text out) out decoded
    print (
        json_value (
          json (
            ("success", boolean true)
            ∷ ("path", string (value_or src (as_str (Json.get "path" v))))
            ∷ ("out", string out)
            ∷ ("size", nat_value (length decoded))
            ∷ [])))

module _ (p : Platform) (c : Client) where
  unfoldable pub run_volumes : VolumeCmd → M String Unit
  run_volumes list = send_json p c get "/api/volumes" [] none
  run_volumes (create spec) = do
    body ← parse_json_arg p spec
    send_json p c post "/api/volumes" [] (some body)
  run_volumes (get_volume name) = send_json p c get ("/api/volumes/" ++ name) [] none
  run_volumes (delete_volume name) = send_json p c delete ("/api/volumes/" ++ name) [] none
  run_volumes (upload name file path mode) = do
    bytes ← read_file ("Failed to read " ++ p.debug_text file) file
    send_json p c post ("/api/volumes/" ++ name ++ "/files") []
        (some (upload_body p file path mode bytes))
  run_volumes (download name path out) = do
    body ←
        call_bytes p c get
          ("/api/volumes/" ++ name ++ "/files/" ++ encode_path (source_path p path out)) [] none
    save_download p (source_path p path out) out body
  run_volumes (archive_upload name archive path strip_components) = do
    bytes ← read_file ("Failed to read " ++ p.debug_text archive) archive
    send_json p c post ("/api/volumes/" ++ name ++ "/archive") [] (
        some (
          json (
            ("content", string (p.base64_encode bytes))
            ∷ ("path", string path)
            ∷ ("strip_components", nat_value strip_components)
            ∷ [])))
