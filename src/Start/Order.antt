-- ===== src/Start/Order.antt =====
-- In which order the calls of main come.
use wsd.Prelude.{
  ℕ, suc, ◌≡◌, ◌≢◌, ap, ◌∙◌, Bool, true, false, not, Option, none, some, List, [], ◌∷◌, arith,
}
use wsd.Start.{Args, configure}
use wsd.Start.Launch.{Call, opens_pidfile, unlinks_pidfile, serves, setuids, Answers, launch}

-- The user that getuid gives when the process serves, if it does; it gives `uid` at the start. A setuid
-- that fails changes nothing.
abbrev pub serves_as : ℕ → List Call → Option ℕ
serves_as uid [] = none
serves_as uid (setuids new true ∷ cs) = serves_as new cs
serves_as uid (serves ∷ cs) = some uid
serves_as uid (c ∷ cs) = serves_as uid cs

-- Whether the file for the process id is there at the end, if it is `there` at the start.
abbrev pub pidfile_left : Bool → List Call → Bool
pidfile_left there [] = there
pidfile_left there (opens_pidfile true ∷ cs) = pidfile_left true cs
pidfile_left there (unlinks_pidfile true ∷ cs) = pidfile_left false cs
pidfile_left there (c ∷ cs) = pidfile_left there cs

abbrev pub names_file : Option (List ℕ) → Bool
names_file none = false
names_file (some name) = true

-- The user that getuid gives where wschild_main is called is not root, whoever starts the daemon.
pub serves_as-launch :
    (a : Answers) (args : Args) (u : ℕ) → serves_as a.uid (launch a args) ≡ some u → u ≢ 0
unfolding launch configure
serves_as-launch a args u e = ground arith

refused :
    (a : Answers) (args : Args) (name : List ℕ)
    → args.p_arg ≡ some name
    → a.pidfile_opened ≡ false
    → serves_as a.uid (launch a args) ≡ none
unfolding launch configure
refused a args name p shut = ground (arith, p, shut)

-- A start that fails behind the opening of the file for the process id leaves the file behind, unless
-- writing it is what fails. A later start with the same options, for which open succeeds just where no
-- file is there, as O_EXCL says, does not serve.
pub failed-pidfile_left :
    (a later : Answers) (args : Args) (uid : ℕ) (name : List ℕ)
    → args.p_arg ≡ some name
    → a.pw_uid ≡ some (suc uid)
    → a.pidfile_opened ≡ true
    → a.child ≢ some false
    → a.pid_printed ≡ true
    → a.pid_written ≡ true
    → serves_as a.uid (launch a args) ≡ none
    → later.pidfile_opened ≡ not (pidfile_left false (launch a args))
    → (pidfile_left false (launch a args) ≡ true) × (serves_as later.uid (launch later args) ≡ none)
unfolding launch configure
failed-pidfile_left a later args uid name p u o c pr w e excl =
    let left : pidfile_left false (launch a args) ≡ true = ground arith in
    (left, refused later args name p (excl ∙ ap not left))
