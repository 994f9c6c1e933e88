-- ===== src/Logger/Again.antt =====
-- What the section "logger" decides, and what it leaves.
use service_framework.Prelude.{String, refl, Bool, Option, some, arith, ◌≡◌}
use service_framework.Json.{Json, ℤ}
use service_framework.Logger.{
  Destinations, Flags, Traces, Logger, read, destination, verbosity, set_destinations, set_flags,
  set_traces, set_conf,
}

module _ {J : Type 0} (json : Json J) (get_bool : J → Option Bool) where
  -- The base name that a key gives, and `other` where the key is missing.
  abbrev pub named : String → String → J → String → Option String → Option (Option String)
  named program suffix conf key other = read json (destination json program suffix) conf key other

  read_again :
      {A : Type 0} (get : J → Option A) (conf : J) (key : String) (old new : A)
      → read json get conf key old ≡ some new
      → read json get conf key new ≡ some new
  read_again get conf key old new h = ground (arith, h)

  verbosity_again :
      (conf : J) (old new : ℤ)
      → verbosity json get_bool conf old ≡ some new
      → verbosity json get_bool conf new ≡ some new
  verbosity_again conf old new h = ground (arith, h)

  destinations_again :
      (program : String) (conf : J) (d d' : Destinations)
      → set_destinations json program conf d ≡ some d'
      → set_destinations json program conf d' ≡ some d'
  unfolding set_destinations
  destinations_again program conf d d' h = ground (arith, h)

  flags_again :
      (conf : J) (f f' : Flags)
      → set_flags json get_bool conf f ≡ some f'
      → set_flags json get_bool conf f' ≡ some f'
  unfolding set_flags
  flags_again conf f f' h = ground (arith, h)

  traces_again :
      (conf : J) (t t' : Traces)
      → set_traces json get_bool conf t ≡ some t'
      → set_traces json get_bool conf t' ≡ some t'
  unfolding set_traces
  traces_again conf t t' h = ground (arith, h)

  pub set_conf-parts :
      (program : String) (conf : J) (l l' : Logger)
      → set_conf json get_bool program conf l ≡ some l'
      → (set_destinations json program conf l.destinations ≡ some l'.destinations)
        × (set_flags json get_bool conf l.flags ≡ some l'.flags)
        × (set_traces json get_bool conf l.traces ≡ some l'.traces)
  unfolding set_conf
  set_conf-parts program conf l l' h = ground (arith, h)

  -- Whatever the section holds: when `SetConf` succeeds, the same section given again succeeds and
  -- changes nothing.
  pub set_conf_again :
      (program : String) (conf : J) (l l' : Logger)
      → set_conf json get_bool program conf l ≡ some l'
      → set_conf json get_bool program conf l' ≡ some l'
  set_conf_again program conf l l' h =
      let (d, f, t) = set_conf-parts program conf l l' h in
      let d' = destinations_again program conf l.destinations l'.destinations d in
      let f' = flags_again conf l.flags l'.flags f in
      let t' = traces_again conf l.traces l'.traces t in unfold set_conf in rw (d', f', t') refl
