-- ===== src/Codegen/Main.antt =====
-- cmd/codegen/main.go: `main`.
use helios_permission_golang.Prelude.{ℕ, Str, List, [], ◌∷◌, ◌++◌, bytes}
use helios_permission_golang.Errors.{Result, ok, err, panic}
use helios_permission_golang.Errors.Text.{error_text}
use helios_permission_golang.Redis.{Fallible, failed, done}
use helios_permission_golang.Codegen.{Contract}
use helios_permission_golang.Codegen.Text.{emit_text}

-- `os.ReadFile`, `json.Unmarshal` into a contract, and the day of the run.
pub record Machine : Type 0 where
  pub read_file : Str → Fallible Str
  pub unmarshal : Str → Fallible Contract
  pub today : Str

-- What the process leaves: its output, its error output and its exit code.
pub record Exit : Type 0 where
  pub stdout : Str
  pub stderr : Str
  pub code : ℕ

abbrev pub fails : Str → ℕ → Exit
fails text code = record { stdout = []; stderr = text ++ bytes "\n"; code = code }

-- After `emit`, which does not panic.
abbrev pub finish : Result Str → Exit
finish (ok out) = record { stdout = out; stderr = []; code = 0 }
finish (err e) = fails (error_text e) 1
finish (panic text) = fails text 2

abbrev pub after_parse : Machine → Str → Fallible Contract → Exit
after_parse M path (failed e) = fails (bytes "parse " ++ (path ++ (bytes ": " ++ e))) 1
after_parse M path (done c) = finish (emit_text M.today c)

abbrev pub after_read : Machine → Str → Fallible Str → Exit
after_read M path (failed e) = fails (bytes "read " ++ (path ++ (bytes ": " ++ e))) 1
after_read M path (done file) = after_parse M path (M.unmarshal file)

-- `main`, for the arguments of the process.
unfoldable pub main : Machine → List Str → Exit
main M (program ∷ path ∷ []) = after_read M path (M.read_file path)
main M _ = fails (bytes "usage: codegen <path-to-permissions.json>") 2
