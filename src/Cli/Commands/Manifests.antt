-- ===== src/Cli/Commands/Manifests.antt =====
-- cli/src/main.rs: reading manifests makes no call, and neither does printing a response.
use quiltc.Prelude.{String, Bool, Option, none, some, List, [], ◌∷◌, Res}
use quiltc.Prelude.Maps.{lookup, keys}
use quiltc.Control.Json.{Value, Items, nil, cons}
use quiltc.Cli.Console.{Platform, Bytes, ServiceCall, M, ◌>>◌, skip}
use quiltc.Cli.Console.Contracts.{
  Meets, Meets-bind, Meets-bail, Meets-pure, Meets-some_or, Meets-print, Meets-if, Meets-read_file,
}
use quiltc.Cli.Kubernetes.Manifests.{
  of_res, fetch, read_manifest_file, read_all, in_directory, read_found, read_local, collect_source,
  collect_all, some_documents, collect_manifest_sources, manifest_string,
}
use quiltc.Cli.Kubernetes.Responses.{
  Summary, print_kinds, print_summary, print_k8s_summary, print_messages, print_k8s_messages,
  k8s_emit_response,
}

module _ (p : Platform) (Q : ServiceCall → Type 0) (R : String → Type 0)
    (fails : (e : String) → R e) where
  abbrev Reads : {A : Type 0} → M String A → Type 0
  Reads m = Meets Q R 0 (λ a. Unit) m

  Meets-fetch : (url : String) → Reads (fetch url)
  unfolding fetch
  Meets-fetch url = record {
    gives = λ w. (res (w.pages url)).gives w;
    goes = λ w. (res (w.pages url)).goes w;
  }
    where
      res : (r : Res String) → Reads (λ v. of_res r v v)
      res (Res.ok a) = Meets-pure Q R _ a tt
      res (Res.err e) = Meets-bail Q R _ e (fails e)

  Meets-read_all : (fs : List String) → Reads (read_all p fs)
  unfolding read_all read_manifest_file
  Meets-read_all [] = Meets-pure Q R _ _ tt
  Meets-read_all (f ∷ fs) =
      Meets-bind Q R (λ t. Unit) _ 0 0 _ _
        (Meets-bind Q R _ _ 0 0 _ _ (Meets-read_file Q R _ _ (fails _))
          (λ b t. Meets-some_or Q R _ _ _ (fails _) (λ v e. tt)))
        (λ t u. Meets-bind Q R _ _ 0 0 _ _ (Meets-read_all fs) (λ ts u. Meets-pure Q R _ _ tt))

  Meets-read_local : (src : String) → Reads (read_local p src)
  unfolding read_local
  Meets-read_local src = record {
    gives = λ w. (found (lookup src w.files) (keys w.files)).gives w;
    goes = λ w. (found (lookup src w.files) (keys w.files)).goes w;
  }
    where
      below : (paths here : List String) → Reads (in_directory p src paths here)
      below paths [] = Meets-bail Q R _ _ (fails _)
      below paths (f ∷ fs) = Meets-read_all _

      found : (o : Option Bytes) (paths : List String) → Reads (read_found p src o paths)
      found (some b) paths = Meets-read_all _
      found none paths = below paths _

  Meets-collect_source : (src : String) → Reads (collect_source p src)
  unfolding collect_source
  Meets-collect_source src =
      Meets-if Q R _ _ 0 _ _
        (Meets-bind Q R _ _ 0 0 _ _ (Meets-fetch src) (λ t u. Meets-pure Q R _ _ tt))
        (Meets-read_local src)

  Meets-collect_all : (srcs : List String) → Reads (collect_all p srcs)
  unfolding collect_all
  Meets-collect_all [] = Meets-pure Q R _ _ tt
  Meets-collect_all (src ∷ rest) = Meets-bind Q R _ _ 0 0 _ _ (Meets-collect_source src) (λ ms t.
      Meets-bind Q R _ _ 0 0 _ _ (Meets-collect_all rest) (λ more t. Meets-pure Q R _ _ tt))

  pub Meets-manifest : (srcs : List String) → Reads (manifest_string p srcs)
  unfolding manifest_string collect_manifest_sources
  Meets-manifest srcs =
      Meets-bind Q R (λ ms. Unit) _ 0 0 _ _
        (Meets-bind Q R _ _ 0 0 _ _ (Meets-collect_all srcs) (λ ms t. documents ms))
        (λ ms t. Meets-pure Q R _ _ tt)
    where
      documents : (ms : List String) → Reads (some_documents p ms)
      documents [] = Meets-bail Q R _ _ (fails _)
      documents (m ∷ ms) = Meets-pure Q R _ _ tt

module _ (p : Platform) (Q : ServiceCall → Type 0) {E : Type 0} (R : E → Type 0) where
  abbrev Prints : M E Unit → Type 0
  Prints m = Meets Q R 0 (λ a. Unit) m

  Meets-skip : Prints skip
  Meets-skip = Meets-pure Q R _ _ tt

  in_turn : (m k : M E Unit) → Prints m → Prints k → Prints (m >> k)
  in_turn m k g h = Meets-bind Q R _ _ 0 0 m (λ u. k) g (λ u t. h)

  Meets-print_kinds : (m : Summary) → Prints (print_kinds p m)
  unfolding print_kinds
  Meets-print_kinds [] = Meets-skip
  Meets-print_kinds (k ∷ r) = in_turn _ _ (Meets-print Q R _) (Meets-print_kinds r)

  Meets-print_messages : (level : String) (xs : Items) → Prints (print_messages p level xs)
  unfolding print_messages
  Meets-print_messages level nil = Meets-skip
  Meets-print_messages level (cons v r) =
      in_turn _ _ (Meets-print Q R _) (Meets-print_messages level r)

  pub Meets-emit :
      (v : Value) (as_json summary : Bool) → Prints (k8s_emit_response p v as_json summary)
  unfolding k8s_emit_response print_k8s_summary print_k8s_messages
  Meets-emit v as_json summary = Meets-if Q R _ _ 0 _ _ (Meets-print Q R _) (
      in_turn _ _ (Meets-if Q R _ summary 0 _ _ (summed _) Meets-skip) (
        in_turn _ _ (in_turn _ _ (Meets-print_messages _ _) (Meets-print_messages _ _))
          (Meets-print Q R _)))
    where
      summed : (m : Summary) → Prints (print_summary p m)
      summed [] = Meets-skip
      summed (k ∷ r) = in_turn _ _ (Meets-print Q R _) (Meets-print_kinds (k ∷ r))
