-- ===== src/PidFile/Tests.antt =====
-- Files of the process's number, and the theorem at one.
use Prim.Native.String.{◌++◌}
use service_framework.Prelude.{refl, true, some, ◌≡◌, string_eq, if◌then◌else◌, nat_eq, string_eq}
use service_framework.PidFile.{has_slash, pid_directory, pid_file_name, write_pid}
use service_framework.PidFile.Place.{dir_name, base_name, base_name-pid_file_name}

glued : pid_file_name "/var/run" "access" ≡ "/var/runaccess.pid"
unfolding pid_file_name pid_directory has_slash
glued = refl

in_run : pid_file_name "run" "access" ≡ "run/access.pid"
unfolding pid_file_name pid_directory has_slash
in_run = refl

written : write_pid (λ name. true) (λ n. "42") 42 "" "access" ≡ some ("access.pid", "42")
unfolding write_pid pid_file_name pid_directory has_slash
written = refl

base_name-pid_file_name_example :
    (dir_name (pid_file_name "/var/run" "access") ≡ (
      if has_slash "/var/run"
      then dir_name "/var/run"
      else if string_eq.beq "/var/run" ""
      then ""
      else "/var/run" ++ "/"))
    × (base_name (pid_file_name "/var/run" "access")
        ≡ (if has_slash "/var/run" then base_name "/var/run" else "") ++ "access" ++ ".pid")
base_name-pid_file_name_example =
    base_name-pid_file_name "/var/run" "access" (unfold has_slash in refl)
