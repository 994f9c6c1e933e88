-- ===== src/Root/DoMain.antt =====
-- How a program ends: `DoMain` over the functions of `Root`.
use service_framework.Prelude.{
  String, refl, subst, true, false, none, some, [], ◌≡◌, ◌∙◌, ◌∷◌, ◌++◌,
}
use service_framework.Config.{ServiceConfig}
use service_framework.Service.{ServiceManager, lookup, start, returned, threw, fatal}
use service_framework.Service.Entries.{reached-all, quiet, named, Fits, service_of}
use service_framework.Service.Starting.{Throws, start-Throws}
use service_framework.Service.Online
use service_framework.Service.Refused.{start_stops_iff}
use service_framework.PidFile.{pid_file_name, write_pid}
use service_framework.BaseMain.{CommandLine, do_main, run_and_destroy}
use service_framework.Root.{Root}
use service_framework.Root.Timer.{post_timer, loop_for_ever}
use service_framework.Root.Running.{System, Process, root_program, run, run_started, destroy}
use service_framework.Root.Boot.{
  initialized, Loads, chosen, do_main-Loads, initialized-start, initialized_keeps,
  initialized-created,
}

module _ {J L : Type 0} (sys : System J L) (line : CommandLine) where
  -- A process that has loaded `r` and starts its services.
  do_main-run_started :
      (r : Root L) (p : Process L) (m : ServiceManager)
      → Loads sys line p r
      → ((name : String) → sys.can_open name ≡ true)
      → start sys.throws (initialized sys line r p).manager ≡ returned m
      → do_main (root_program sys line) line p
        ≡ some (
          0,
          record (initialized sys line r p) {
            manager = m;
            files =
                p.files
                ++ (pid_file_name line.pid_path line.program_name, sys.decimal sys.pid) ∷ [];
            main_loop = loop_for_ever sys.lates (post_timer p.main_loop);
            stopped = Online.stop m;
          },
        )
  unfolding run_and_destroy run run_started destroy write_pid
  do_main-run_started r p m loads opens started =
      do_main-Loads sys line p r loads
      ∙ rw
          (
            started,
            run,
            opens (pid_file_name line.pid_path line.program_name),
            run_started,
            write_pid,
          )
          refl

  -- On a service manager without services and factories, for a configuration file that is read into
  -- `r` and whose startable services fit together: when no service throws and the file of the
  -- process's number can be opened, the program exits with 0 once its loop is ended; it had started
  -- exactly the startable services, each name stood for its server or group of clients, the file
  -- holds the number, the timer ran on the main loop, and `Stop` was called on every service.
  pub do_main-chosen :
      (r : Root L) (p : Process L)
      → Loads sys line p r
      → p.manager.services ≡ []
      → p.manager.factories ≡ []
      → Fits [] (chosen sys line r p)
      → ((c : ServiceConfig) → sys.throws c ≡ false)
      → ((name : String) → sys.can_open name ≡ true)
      → (q : Process L) × (do_main (root_program sys line) line p ≡ some (0, q))
        × (q.manager.running ≡ p.manager.running ++ chosen sys line r p)
        × ((s : String) → lookup q.manager s ≡ service_of (named s (chosen sys line r p)))
        × (q.files
            ≡ p.files ++ (pid_file_name line.pid_path line.program_name, sys.decimal sys.pid) ∷ [])
        × (q.main_loop ≡ loop_for_ever sys.lates (post_timer p.main_loop))
        × (q.stopped ≡ Online.stop q.manager)
  do_main-chosen r p loads empty no_factories fits no_throws opens =
      let (m, started, found, runs) =
        initialized-start sys line r p empty no_factories fits no_throws in
      (_, do_main-run_started r p m loads opens started, runs, found, refl, refl, refl)

  -- For a configuration file that is read into `r`, on a service manager without services and
  -- factories, when no service throws: if the startable services do not fit together, the program is
  -- ended by `LOG(FATAL)`, and neither exits with a number nor writes the file.
  pub do_main_unfit :
      (r : Root L) (p : Process L)
      → Loads sys line p r
      → p.manager.services ≡ []
      → p.manager.factories ≡ []
      → (¬ Fits [] (chosen sys line r p))
      → ((c : ServiceConfig) → sys.throws c ≡ false)
      → do_main (root_program sys line) line p ≡ none
  unfolding run_and_destroy run
  do_main_unfit r p loads empty no_factories unfit no_throws =
      let m = (initialized sys line r p).manager in
      let made = initialized-created sys line r p no_factories in
      let stops : start sys.throws m ≡ fatal =
        (start_stops_iff sys.throws m ((initialized_keeps sys line r p).1 ∙ empty)).1 (λ fits.
          unfit (
            subst (λ cs. Fits [] cs)
              (reached-all sys.throws _ (quiet sys.throws _ no_throws) ∙ made) fits)) in
      do_main-Loads sys line p r loads ∙ rw (stops, run) refl

  -- For a configuration file that is read into `r`, on a service manager without factories, when a
  -- service throws from its `Start`: the program still exits with 0; it had started the startable
  -- services up to the one that throws, and it writes no file, runs no timer and stops no service.
  pub do_main-Throws :
      (r : Root L) (p : Process L) (m : ServiceManager)
      → Loads sys line p r
      → p.manager.factories ≡ []
      → start sys.throws (initialized sys line r p).manager ≡ threw m
      → (do_main (root_program sys line) line p
          ≡ some (0, record (initialized sys line r p) { manager = m }))
        × Throws sys.throws (initialized sys line r p).manager (chosen sys line r p) m
  unfolding run_and_destroy run destroy
  do_main-Throws r p m loads no_factories thrown = (
    do_main-Loads sys line p r loads ∙ rw (thrown, run) refl,
    subst (λ cs. Throws sys.throws (initialized sys line r p).manager cs m)
        (initialized-created sys line r p no_factories)
        (start-Throws sys.throws (initialized sys line r p).manager m thrown),
  )
