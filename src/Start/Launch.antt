-- ===== src/Start/Launch.antt =====
-- The calls that main of src/wsd.c makes behind its options, in their order.
use wsd.Prelude.{ℕ, Bool, true, false, not, ◌==◌, if◌then◌else◌, Option, none, some, List, [], ◌∷◌}
use wsd.Start.{Args, Config, configure}

-- Only calls that leave something behind, or that end the process; `aborts` is a failed assertion. For
-- open, unlink and setuid there is whether the call succeeds.
pub data Call : Type 0 where
  chowns_pidfile forks umasks setsids chdirs writes_pidfile closes_pidfile : Call
  closes_std binds serves closes_lfd aborts : Call
  opens_pidfile unlinks_pidfile : Bool → Call
  setuids : ℕ → Bool → Call
  exits : ℕ → Call

-- What comes of them. `pw_uid` is the user's number, if getpwnam knows the user; `child` is `none` where
-- fork fails; `bound` is whether all calls of listen_sk_bind succeed, which it asserts; `uid` is that of
-- getuid, and `rv` what wschild_main returns. `unlinked` is whether unlink succeeds; closing an open
-- descriptor does.
pub record Answers : Type 0 where
  pub pw_uid : Option ℕ
  pub pidfile_opened : Bool
  pub pidfile_chowned : Bool
  pub child : Option Bool
  pub session : Bool
  pub changed_dir : Bool
  pub pid_printed : Bool
  pub pid_written : Bool
  pub bound : Bool
  pub uid : ℕ
  pub uid_set : Bool
  pub unlinked : Bool
  pub rv : ℕ

abbrev fails : List Call
fails = exits 1 ∷ []

-- `if (cfg.pidfilename) AZ(unlink(cfg.pidfilename));` and what follows.
abbrev unlink_pidfile : Answers → Option (List ℕ) → List Call
unlink_pidfile a none = exits a.rv ∷ []
unlink_pidfile a (some name) =
    unlinks_pidfile a.unlinked ∷ (if a.unlinked then exits a.rv ∷ [] else aborts ∷ [])

-- From wschild_main on.
abbrev serve : Answers → Config → List Call
serve a cfg = serves ∷ closes_lfd ∷ unlink_pidfile a cfg.pidfilename

-- From `if (0 == getuid())` on, with drop_priv.
abbrev drop_root : Answers → Config → List Call
drop_root a cfg =
    if a.uid == 0
    then setuids cfg.uid a.uid_set ∷ (if a.uid_set then serve a cfg else closes_lfd ∷ fails)
    else serve a cfg

abbrev bind_port : Answers → Config → List Call
bind_port a cfg = binds ∷ (if a.bound then drop_root a cfg else aborts ∷ [])

abbrev detach : Answers → Config → List Call
detach a cfg = if cfg.no_fork then bind_port a cfg else closes_std ∷ bind_port a cfg

abbrev write_pidfile : Answers → Config → List Call
write_pidfile a cfg = elim cfg.pidfilename [
  | none ↦ detach a cfg
  | some name ↦
      if not a.pid_printed
      then unlinks_pidfile a.unlinked ∷ fails
      else writes_pidfile
        ∷ (if a.pid_written
            then closes_pidfile ∷ detach a cfg
            else unlinks_pidfile a.unlinked ∷ fails)
]

abbrev change_dir : Answers → Config → List Call
change_dir a cfg = chdirs ∷ (if a.changed_dir then write_pidfile a cfg else fails)

abbrev child_main : Answers → Config → List Call
child_main a cfg =
    umasks
    ∷ (if cfg.no_fork
        then change_dir a cfg
        else setsids ∷ (if a.session then change_dir a cfg else fails))

-- The parent ends at once.
abbrev fork_child : Answers → Config → List Call
fork_child a cfg =
    if cfg.no_fork
    then child_main a cfg
    else forks
      ∷ (elim a.child [ none ↦ fails | some false ↦ exits 0 ∷ [] | some true ↦ child_main a cfg ])

abbrev open_pidfile : Answers → Config → List Call
open_pidfile a cfg = elim cfg.pidfilename [
  | none ↦ fork_child a cfg
  | some name ↦
      opens_pidfile a.pidfile_opened
      ∷ (if not a.pidfile_opened
          then fails
          else chowns_pidfile ∷ (if a.pidfile_chowned then fork_child a cfg else fails))
]

-- Behind the loop over the options.
unfoldable pub launch : Answers → Args → List Call
launch a args = elim a.pw_uid [
  | none ↦ fails
  | some uid ↦ if uid == 0 then fails else open_pidfile a (configure args uid)
]
