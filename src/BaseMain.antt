-- ===== src/BaseMain.antt =====
-- `BaseMain::DoMain` of baselib/base/base_main.cc, which calls the virtual functions of a program. The
-- command line is what gflags reads from it; `none` is an exception or `LOG(FATAL)`, which end the
-- program, else the program exits with the number 0.
use Prim.Native.String.{◌++◌}
use service_framework.Prelude.{
  ℕ, String, Bool, true, false, Option, some, ◌>>=◌, string_eq, if◌then◌else◌, nat_eq, string_eq,
}

-- The flags, and `ProgramInvocationShortName()`.
pub record CommandLine : Type 0 where
  pub json : String
  pub pid_path : String
  pub program_name : String

unfoldable pub config_file : CommandLine → String
config_file line = if string_eq.beq line.json "" then line.program_name ++ ".json" else line.json

-- The virtual functions of a program with the state `S`.
pub record Program (S : Type 0) : Type 0 where
  pub load_config : String → S → Option (Bool × S)
  pub initialize : S → Option (Bool × S)
  pub run : S → Option (Bool × S)
  pub destroy : S → Option (Bool × S)

-- `Run(); Destroy();`
unfoldable pub run_and_destroy : {S : Type 0} → Program S → S → Option S
run_and_destroy p s = do (ran, s1) ← p.run s; (ended, s2) ← p.destroy s1; some s2

-- From `Initialize` on.
unfoldable pub initialize_and_run : {S : Type 0} → Program S → S → Option S
initialize_and_run p s = do
  (ready, s1) ← p.initialize s
  elim ready [ true ↦ run_and_destroy p s1 | false ↦ some s1 ]

-- The number that the program exits with, and the last state.
unfoldable pub do_main : {S : Type 0} → Program S → CommandLine → S → Option (ℕ × S)
do_main p line s = do
  (loaded, s1) ← p.load_config (config_file line) s
  s2 ← (elim loaded [ true ↦ initialize_and_run p s1 | false ↦ some s1 ])
  some (0, s2)
