-- ===== src/Examples/Exits.antt =====
-- The end of the command for a process that has just been started.
use aegis_pulse.Base.{false}
use aegis_pulse.Cache.Store.{new_smart_cache}
use aegis_pulse.Launch.Exit.{Process}

abbrev process : Process
process = record {
  stop_ch_closed = false;
  smart_cache = new_smart_cache;
  repo_closed = false;
  redis_closed = false;
  cancelled = false;
  panicked = false;
}
