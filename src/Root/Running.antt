-- ===== src/Root/Running.antt =====
-- A program of the framework from its command line to its end: `Run` and `Destroy` of
-- baselib/net/root.cc, with `DoMain` of baselib/base/base_main.cc over the functions of `Root`.
use service_framework.Prelude.{ℕ, String, Bool, true, Option, none, some, List, [], ◌∷◌, ◌++◌}
use service_framework.Json.{Json}
use service_framework.Config.{ServiceConfig}
use service_framework.Stats.{Stats}
use service_framework.ThreadGroup.{ThreadType}
use service_framework.Service.{ServiceManager, returned, threw, fatal, start}
use service_framework.Service.Online
use service_framework.PidFile.{write_pid}
use service_framework.BaseMain.{CommandLine, Program}
use service_framework.Root.{Root, load_config, initialize}
use service_framework.Root.Timer.{MainLoop, post_timer, loop_for_ever}

-- What the program meets: the JSON library, the number of the machine's threads, the logger, the files
-- that can be read and opened, the event bases of new threads, the services whose `Start` throws, the
-- process's number, and the delays of the main loop until a signal ends it.
pub record System (J L : Type 0) : Type 1 where
  pub json : Json J
  pub hardware : ℕ
  pub set_logger : J → L → Option L
  pub parse : String → Option J
  pub read_file : String → Option String
  pub can_open : String → Bool
  pub started : ThreadType → ℕ → List ℕ
  pub throws : ServiceConfig → Bool
  pub decimal : ℕ → String
  pub pid : ℕ
  pub lates : List ℕ

-- `services`: those that the program registered. `files`: those written. `stopped`: the instances that
-- `Stop` was called on.
pub record Process (L : Type 0) : Type 0 where
  pub root : Root L
  pub services : List (String × String)
  pub manager : ServiceManager
  pub fiber_stats : Stats
  pub files : List (String × String)
  pub main_loop : MainLoop
  pub stopped : List ServiceConfig

module _ {J L : Type 0} (sys : System J L) (line : CommandLine) where
  unfoldable pub root_load_config : String → Process L → Option (Bool × Process L)
  root_load_config path p =
      elim (load_config sys.json sys.hardware sys.set_logger sys.parse sys.read_file path p.root) [
        | none ↦ none
        | some (rv, r) ↦ some (rv, record p { root = r })
      ]

  unfoldable pub root_initialize : Process L → Option (Bool × Process L)
  root_initialize p =
      let (manager, stats) = initialize sys.started p.root p.services p.manager p.fiber_stats in
      some (true, record p { manager = manager; fiber_stats = stats })

  -- `Run` once `Start` has returned.
  unfoldable pub run_started : Process L → Option (Bool × Process L)
  run_started p =
      elim (write_pid sys.can_open sys.decimal sys.pid line.pid_path line.program_name) [
        | none ↦ none
        | some file ↦ some (
          true,
          record p {
            files = p.files ++ file ∷ [];
            main_loop = loop_for_ever sys.lates (post_timer p.main_loop);
            stopped = Online.stop p.manager;
          },
        )
      ]

  -- `Run`; `return -1` is true.
  unfoldable pub run : Process L → Option (Bool × Process L)
  run p = elim (start sys.throws p.manager) [
    | returned m ↦ run_started (record p { manager = m })
    | threw m ↦ some (true, record p { manager = m })
    | fatal ↦ none
  ]

  unfoldable pub destroy : Process L → Option (Bool × Process L)
  destroy p = some (true, p)

  abbrev pub root_program : Program (Process L)
  root_program = record {
    load_config = root_load_config;
    initialize = root_initialize;
    run = run;
    destroy = destroy;
  }
