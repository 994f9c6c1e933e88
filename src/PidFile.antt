-- ===== src/PidFile.antt =====
-- `writePid` of baselib/base/util.cc: the file that holds the number of the process.
pub mod Place
mod Tests
use Prim.Native.String.{◌++◌}
use Prim.Native.Char.{code}
use service_framework.Prelude.{
  ℕ, String, Bool, false, Option, none, some, [], ◌||◌, ◌∷◌, ◌==◌, string_eq, if◌then◌else◌, nat_eq,
  string_eq,
}

-- Whether `find_last_of("/")` finds one.
unfoldable pub has_slash : String → Bool
has_slash String.[] = false
has_slash (String.◌∷◌ c s) = code c == b'/' || has_slash s

-- `path` after the `if` over it.
unfoldable pub pid_directory : String → String
pid_directory path =
    if string_eq.beq path "" then path else if has_slash path then path else path ++ "/"

unfoldable pub pid_file_name : String → String → String
pid_file_name path server_name = pid_directory path ++ server_name ++ ".pid"

-- The file that is written, with its text; `can_open` tells whether `fopen` opens the file, and
-- `none` is the assertion after it.
unfoldable pub write_pid :
    (String → Bool) → (ℕ → String) → ℕ → String → String → Option (String × String)
write_pid can_open decimal pid path server_name =
    let name = pid_file_name path server_name in
    if can_open name then some (name, decimal pid) else none
