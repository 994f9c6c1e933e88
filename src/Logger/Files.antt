-- ===== src/Logger/Files.antt =====
-- Which file the messages of each severity go to.
use Prim.Native.String.{◌++◌}
use service_framework.Prelude.{String, Bool, Option, none, some, arith, ◌≡◌, nat_eq, string_eq}
use service_framework.Json.{Json}
use service_framework.Logger.{Destinations, Logger, destination, read, set_destinations, set_conf}
use service_framework.Logger.Again.{set_conf-parts}

-- The first of two names that is there.
abbrev pub or_else : Option String → Option String → Option String
or_else none old = old
or_else (some file) old = some file

module _ {J : Type 0} (json : Json J) where
  -- The base name of files that a key asks for.
  abbrev pub file_of : String → String → J → String → Option String
  file_of program suffix conf key = elim (json.find conf key) [
    | none ↦ none
    | some v ↦ elim (json.get_string v) [
      | none ↦ none
      | some dest ↦ some (dest ++ program ++ suffix)
    ]
  ]

  -- Where the messages of each severity go, before and after.
  abbrev pub Sends : String → J → Destinations → Destinations → Type 0
  Sends program conf d d' =
      (d'.info
        ≡ or_else (file_of program "_info_" conf "info_dest")
            (or_else (file_of program "_fatal_" conf "fatal_dest") d.info))
      × (d'.warning ≡ or_else (file_of program "_warning_" conf "warning_dest") d.warning)
      × (d'.error ≡ or_else (file_of program "_error_" conf "error_dest") d.error)
      × (d'.fatal ≡ d.fatal)

  read-file_of :
      (program suffix : String) (conf : J) (key : String) (old new : Option String)
      → read json (destination json program suffix) conf key old ≡ some new
      → new ≡ or_else (file_of program suffix conf key) old
  read-file_of program suffix conf key old new h = ground (arith, h)

  sends :
      (program : String) (conf : J) (d d' : Destinations)
      → set_destinations json program conf d ≡ some d'
      → Sends program conf d d'
  unfolding set_destinations
  sends program conf d d' h = ground (arith, h)

  -- When `SetConf` succeeds: warnings and errors go to the files that "warning_dest" and "error_dest"
  -- name, information to those of "info_dest" or else of "fatal_dest", each to where it went before if
  -- its key is missing; and whatever "fatal_dest" is, fatal messages go to where they went before.
  pub set_conf-Sends :
      (get_bool : J → Option Bool) (program : String) (conf : J) (l l' : Logger)
      → set_conf json get_bool program conf l ≡ some l'
      → Sends program conf l.destinations l'.destinations
  set_conf-Sends get_bool program conf l l' h =
      sends program conf l.destinations l'.destinations
        (set_conf-parts json get_bool program conf l l' h).0
