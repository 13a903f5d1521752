-- ===== src/Start/Laws.antt =====
-- Which configurations the options can lead to.
use wsd.Prelude.{
  ◌||◌, sym, Bool, ℕ, ◌^◌, ◌≤◌, ◌<◌, ◌≡◌, ◌⊎◌, inl, inr, refl, ap, ◌∙◌, false, leb, ◌==◌,
  if◌then◌else◌, Bool-cases, List, [], ◌∷◌, ◌++◌, append-nil, append_assoc, length, length-append,
  arith,
}
use mathlib.Core.Path.{subst}
use wsd.Prelude.Text.{literal}
use wsd.Types.{Timespec, Sk}
use wsd.Timeout.{minus_one, check_timeout, has_timed_out}
use wsd.Timeout.Laws.{IsTime, in_nanos}
use wsd.Start.{
  Args, Outcome, proceed, exits, initial, read_option, read_options, configure, hosts_of,
}

-- The host that an option names, and those of all options.
abbrev pub host_of : ℕ × List ℕ → List (List ℕ)
host_of (opt, optarg) = if opt == b'h' then optarg ∷ [] else []

abbrev pub hosts_in : List (ℕ × List ℕ) → List (List ℕ)
hosts_in [] = []
hosts_in (o ∷ os) = host_of o ++ hosts_in os

abbrev args_of : Args → Outcome → Args
args_of a (proceed a') = a'
args_of a (exits n) = a

read_option-hosts :
    (o : ℕ × List ℕ) (a a' : Args)
    → length a.h_arg ≤ 16
    → read_option o a ≡ proceed a'
    → (a'.h_arg ≡ a.h_arg ++ host_of o) × (length a'.h_arg ≤ 16)
unfolding read_option
read_option-hosts (opt, optarg) a a' small e =
    ground (arith, append-nil a.h_arg, length-append a.h_arg (optarg ∷ []))

read_options-hosts :
    (os : List (ℕ × List ℕ)) (a a' : Args)
    → length a.h_arg ≤ 16
    → read_options os a ≡ proceed a'
    → (a'.h_arg ≡ a.h_arg ++ hosts_in os) × (length a'.h_arg ≤ 16)
unfolding read_options
read_options-hosts [] a a' small e = ground (arith, append-nil a.h_arg)
read_options-hosts (o ∷ os) a a' small e =
    go (λ b f q. read_options-hosts os b a' f q) (read_option o a) refl e
  where
    go :
        ((b : Args)
          → length b.h_arg ≤ 16
          → read_options os b ≡ proceed a'
          → (a'.h_arg ≡ b.h_arg ++ hosts_in os) × (length a'.h_arg ≤ 16))
        → (r : Outcome) → read_option o a ≡ r
        → elim r [ exits status ↦ exits status | proceed b ↦ read_options os b ] ≡ proceed a'
        → (a'.h_arg ≡ a.h_arg ++ hosts_in (o ∷ os)) × (length a'.h_arg ≤ 16)
    go later (exits status) was eq = absurd (ground (arith, eq))
    go later (proceed b) was eq =
        let (first, fits) = read_option-hosts o a b small was in
        let (rest, done) = later b fits eq in
        (
          rest ∙ ap (λ t. t ++ hosts_in os) first ∙ append_assoc a.h_arg (host_of o) (hosts_in os),
          done,
        )

length-hosts_of :
    (hs : List (List ℕ)) → length hs ≤ 16 → (0 < length (hosts_of hs)) × (length (hosts_of hs) ≤ 16)
length-hosts_of [] h = omega arith
length-hosts_of (x ∷ xs) h = omega (arith, h)

-- The hosts of the configuration, for those that the options name.
default_or :
    (hs : List (List ℕ))
    → ((hs ≡ []) × (hosts_of hs ≡ literal "127.0.0.1" ∷ []))
      ⊎ ((0 < length hs) × (hosts_of hs ≡ hs))
default_or [] = inl (refl, refl)
default_or (h ∷ hs) = inr (omega arith, refl)

-- Where the options are read to their end, the configuration names 127.0.0.1 if they give no host, and
-- otherwise the hosts that they give, in their order; there are 1 to 16, and fhostname_num is their number.
-- The idle timeout is -1 or not negative, and the timeout of the closing handshake is positive.
pub configure_lem :
    (os : List (ℕ × List ℕ)) (a : Args) (uid : ℕ)
    → read_options os initial ≡ proceed a
    → (((hosts_in os ≡ []) × ((configure a uid).fhostname ≡ literal "127.0.0.1" ∷ []))
        ⊎ ((0 < length (hosts_in os)) × ((configure a uid).fhostname ≡ hosts_in os)))
      × ((configure a uid).fhostname_num ≡ length (configure a uid).fhostname)
      × (0 < (configure a uid).fhostname_num)
      × ((configure a uid).fhostname_num ≤ 16)
      × (((configure a uid).idle_timeout ≡ minus_one) ⊎ ((configure a uid).idle_timeout < 2 ^ 31))
      × (0 < (configure a uid).closing_handshake_timeout)
      × ((configure a uid).closing_handshake_timeout < 2 ^ 31)
unfolding configure
configure_lem os a uid e =
    let (all, fits) = read_options-hosts os initial a (omega arith) e in
    let (some_host, few) = length-hosts_of a.h_arg fits in
    (
      subst
          (λ hs.
            ((hosts_in os ≡ []) × (hosts_of hs ≡ literal "127.0.0.1" ∷ []))
            ⊎ ((0 < length (hosts_in os)) × (hosts_of hs ≡ hosts_in os)))
          (sym all) (default_or (hosts_in os)),
      omega (arith, few),
      omega (arith, few, some_host),
      omega (arith, few),
      elim (Bool-cases (leb (2 ^ 31) a.i_arg)) [
        | inl negative ↦ inl (rw negative)
        | inr other ↦ inr (rw other (ground (arith, other)))
      ],
      omega arith,
      omega arith,
    )

-- Whether an option gives a ping interval.
abbrev pub gives_ping : List (ℕ × List ℕ) → Bool
gives_ping [] = false
gives_ping ((opt, optarg) ∷ os) = opt == b'n' || gives_ping os

read_option-n :
    (opt : ℕ) (optarg : List ℕ) (a a' : Args)
    → (opt == b'n') ≡ false
    → read_option (opt, optarg) a ≡ proceed a'
    → a'.n_arg ≡ a.n_arg
unfolding read_option
read_option-n opt optarg a a' n e = ground arith

read_options-n :
    (os : List (ℕ × List ℕ)) (a a' : Args)
    → gives_ping os ≡ false
    → read_options os a ≡ proceed a'
    → a'.n_arg ≡ a.n_arg
unfolding read_options
read_options-n [] a a' n e = ground arith
read_options-n ((opt, optarg) ∷ os) a a' n e =
    go (λ b f. read_options-n os b a' (ground (arith, n)) f) (read_option (opt, optarg) a) refl e
  where
    go :
        ((b : Args) → read_options os b ≡ proceed a' → a'.n_arg ≡ b.n_arg)
        → (r : Outcome) → read_option (opt, optarg) a ≡ r
        → elim r [ exits status ↦ exits status | proceed b ↦ read_options os b ] ≡ proceed a'
        → a'.n_arg ≡ a.n_arg
    go later (exits status) was eq = absurd (ground (arith, eq))
    go later (proceed b) was eq = later b eq ∙ read_option-n opt optarg a b (ground (arith, n)) was

-- Where the options are read to their end and none of them gives a ping interval, none is ever due: for
-- a clock that does not go back, the interval that the configuration then has never passes.
pub no_ping_by_default :
    (os : List (ℕ × List ℕ)) (a : Args) (uid : ℕ) (sk : Sk) (now : Timespec)
    → read_options os initial ≡ proceed a
    → gives_ping os ≡ false
    → IsTime sk.ts_last_io
    → IsTime now
    → in_nanos sk.ts_last_io ≤ in_nanos now
    → check_timeout sk now (configure a uid).ping_interval ≡ false
unfolding configure check_timeout has_timed_out
no_ping_by_default os a uid sk now e n t u order =
    rw (read_options-n os initial a n e) (ground arith)
