-- ===== src/Daemon/Shutdown.antt =====
-- The end of wschild_main: every socket is closed, and what is left in the lists.
use wsd.Start.{Config, first_host}
use wsd.Child.Invariant.{Inv}
use wsd.Child.Reach.{start, Reachable-Inv}
use wsd.Daemon.Loop.{initial_world}

-- The start, with all lists empty.
pub initial_world-Inv : (cfg : Config) → Inv (initial_world cfg)
initial_world-Inv cfg = Reachable-Inv (start (first_host cfg))
