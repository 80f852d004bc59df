-- ===== src/Cli/Kubernetes/Manifests.antt =====
-- cli/src/main.rs: collect_manifest_sources, the documents that a command sends.
use Prim.Native.String.{◌++◌ as ◌^◌}
use quiltc.Prelude.{
  String, Bool, false, ◌&&◌, ◌||◌, Option, none, some, List, [], ◌∷◌, ◌++◌, Res, str_eq, keep,
  sort_by, if◌then◌else◌,
}
use quiltc.Prelude
use quiltc.Prelude.Maps.{lookup, keys}
use quiltc.Prelude.Text.{starts_with, split, join}
use quiltc.Control.Json.{str_lt}
use quiltc.Cli.Console.{Platform, Bytes, Console, M, ◌>>=◌, pure, bail, some_or, read_file}

abbrev pub of_res : Res String → Console → M String String
of_res (Res.ok a) w = pure a
of_res (Res.err e) w = bail e

-- `reqwest::get`, its status check and the reading of its text
unfoldable pub fetch : String → M String String
fetch url w = of_res (w.pages url) w w

-- Paths are compared by their components.
abbrev components_lt : List String → List String → Bool
components_lt [] [] = false
components_lt [] (d ∷ ds) = Prelude.true
components_lt (c ∷ cs) [] = false
components_lt (c ∷ cs) (d ∷ ds) = if str_eq c d then components_lt cs ds else str_lt c d

abbrev path_lt : String → String → Bool
path_lt a b = components_lt (split b'/' a) (split b'/' b)

abbrev pub is_manifest_extension : Option String → Bool
is_manifest_extension none = false
is_manifest_extension (some e) = str_eq e "yaml" || str_eq e "yml" || str_eq e "json"

module _ (p : Platform) where
  -- A file's text
  unfoldable pub read_manifest_file : String → M String String
  read_manifest_file path = do
    b ← read_file ("Failed to open " ^ p.debug_text path) path
    some_or ("Failed to read UTF-8 text from " ^ p.debug_text path) (p.utf8_text b)

  -- The manifests below a directory, in the order of their paths
  abbrev pub manifests_below : String → List String → List String
  manifests_below dir paths =
      sort_by path_lt
        (keep (λ f. starts_with f (dir ^ "/") && is_manifest_extension (p.extension f)) paths)

  unfoldable pub read_all : List String → M String (List String)
  read_all [] = pure []
  read_all (f ∷ fs) = do t ← read_manifest_file f; ts ← read_all fs; pure (t ∷ ts)

  abbrev pub in_directory : String → List String → List String → M String (List String)
  in_directory src paths [] = bail ("Source not found: " ^ src)
  in_directory src paths (f ∷ fs) = read_all (manifests_below src paths)

  abbrev pub read_found : String → Option Bytes → List String → M String (List String)
  read_found src (some b) paths = read_all (src ∷ [])
  read_found src none paths = in_directory src paths (keep (λ f. starts_with f (src ^ "/")) paths)

  unfoldable pub read_local : String → M String (List String)
  read_local src w = read_found src (lookup src w.files) (keys w.files) w

  unfoldable pub collect_source : String → M String (List String)
  collect_source src =
      if starts_with src "http://" || starts_with src "https://"
      then (fetch src >>= λ t. pure (t ∷ []))
      else read_local src

  unfoldable pub collect_all : List String → M String (List String)
  collect_all [] = pure []
  collect_all (src ∷ rest) = do ms ← collect_source src; more ← collect_all rest; pure (ms ++ more)

  abbrev pub some_documents : List String → M String (List String)
  some_documents [] = bail "No manifest documents collected from inputs"
  some_documents (m ∷ ms) = pure (m ∷ ms)

  unfoldable pub collect_manifest_sources : List String → M String (List String)
  collect_manifest_sources inputs = collect_all inputs >>= some_documents

  -- The documents as one text
  unfoldable pub manifest_string : List String → M String String
  manifest_string inputs = collect_manifest_sources inputs >>= λ ms. pure (join "\n---\n" ms)
