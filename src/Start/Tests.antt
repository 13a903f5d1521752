-- ===== src/Start/Tests.antt =====
-- Starts of the daemon.
use wsd.Prelude.{
  not, ℕ, ◌-◌, ◌^◌, ◌≤◌, ◌<◌, ◌≡◌, ◌≢◌, ◌⊎◌, refl, true, false, none, some, List, [], ◌∷◌, length,
  arith,
}
use wsd.Prelude.Text.{literal}
use wsd.Types.{Timespec, Sk}
use wsd.Sock.{sk_init}
use wsd.Timeout.{minus_one, check_timeout}
use wsd.Start.{Args, proceed, exits, initial, atoi, read_option, read_options, configure}
use wsd.Start.Launch.{Answers, launch}
use wsd.Start.Laws.{hosts_in, configure_lem, no_ping_by_default}
use wsd.Start.Order.{serves_as, pidfile_left, serves_as-launch, failed-pidfile_left}

numbers : atoi (literal " -15x") ≡ 2 ^ 32 - 15
unfolding atoi
numbers = refl

-- `-h a -h b -n 20 -p f`
abbrev options : List (ℕ × List ℕ)
options =
    (b'h', literal "a") ∷ (b'h', literal "b") ∷ (b'n', literal "20") ∷ (b'p', literal "f") ∷ []

abbrev chosen : Args
chosen = record initial {
  h_arg = literal "a" ∷ literal "b" ∷ [];
  n_arg = 20;
  p_arg = some (literal "f");
}

chosen-read : read_options options initial ≡ proceed chosen
unfolding read_options read_option atoi
chosen-read = refl

-- An unknown option ends the program with the status of success.
unknown : read_options ((b'?', []) ∷ []) initial ≡ exits 0
unfolding read_options read_option
unknown = refl

configure_lem_example :
    (((hosts_in options ≡ []) × ((configure chosen 7).fhostname ≡ literal "127.0.0.1" ∷ []))
      ⊎ ((0 < length (hosts_in options)) × ((configure chosen 7).fhostname ≡ hosts_in options)))
    × ((configure chosen 7).fhostname_num ≡ length (configure chosen 7).fhostname)
    × (0 < (configure chosen 7).fhostname_num)
    × ((configure chosen 7).fhostname_num ≤ 16)
    × (((configure chosen 7).idle_timeout ≡ minus_one)
        ⊎ ((configure chosen 7).idle_timeout < 2 ^ 31))
    × (0 < (configure chosen 7).closing_handshake_timeout)
    × ((configure chosen 7).closing_handshake_timeout < 2 ^ 31)
configure_lem_example = configure_lem options chosen 7 chosen-read

abbrev quiet : Sk
quiet = record (sk_init 5 0) { ts_last_io = record { tv_sec = 10; tv_nsec = 0 } }

abbrev much_later : Timespec
much_later = record { tv_sec = 100000; tv_nsec = 0 }

-- `-h a`
abbrev one_host : List (ℕ × List ℕ)
one_host = (b'h', literal "a") ∷ []

abbrev one_chosen : Args
one_chosen = record initial { h_arg = literal "a" ∷ [] }

one_host-read : read_options one_host initial ≡ proceed one_chosen
unfolding read_options read_option
one_host-read = refl

no_ping_by_default_example :
    check_timeout quiet much_later (configure one_chosen 7).ping_interval ≡ false
unfolding sk_init
no_ping_by_default_example =
    no_ping_by_default one_host one_chosen 7 quiet much_later one_host-read refl (omega arith)
      (omega arith) (omega arith)

-- All calls succeed for a start by root.
abbrev all_well : Answers
all_well = record {
  pw_uid = some 7;
  pidfile_opened = true;
  pidfile_chowned = true;
  child = some true;
  session = true;
  changed_dir = true;
  pid_printed = true;
  pid_written = true;
  bound = true;
  uid = 0;
  uid_set = true;
  unlinked = true;
  rv = 0;
}

serving : serves_as 0 (launch all_well chosen) ≡ some 7
unfolding launch configure
serving = refl

serves_as-launch_example : ◌≢◌ {A = ℕ} 7 0
serves_as-launch_example = serves_as-launch all_well chosen 7 serving

-- The port is taken.
abbrev port_taken : Answers
port_taken = record all_well { bound = false }

not_serving : serves_as 0 (launch port_taken chosen) ≡ none
unfolding launch configure
not_serving = refl

-- The next start finds the file.
abbrev next_start : Answers
next_start = record all_well { pidfile_opened = false }

left_behind : next_start.pidfile_opened ≡ not (pidfile_left false (launch port_taken chosen))
unfolding launch configure
left_behind = refl

failed-pidfile_left_example :
    (pidfile_left false (launch port_taken chosen) ≡ true)
    × (serves_as 0 (launch next_start chosen) ≡ none)
failed-pidfile_left_example =
    failed-pidfile_left port_taken next_start chosen 6 (literal "f") refl refl refl (λ e. cc) refl
      refl not_serving left_behind
