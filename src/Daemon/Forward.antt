-- ===== src/Daemon/Forward.antt =====
-- One round of try_recv takes the frames of a client to the backend's socket.
use wsd.Prelude.{
  ℕ, ◌≡◌, ◌≢◌, refl, sym, ap, ◌∙◌, true, false, ◌==◌, if◌then◌else◌, Bool-cases, ==_iff, inl, inr,
  Option, none, some, List, [], ◌∷◌, ◌++◌, ◌≤◌, length, All, arith,
}
use wsd.Prelude.Options.{◌>>=◌}
use wsd.Skb.Contents.{IsValid, contents, room}
use wsd.Types.{Rv, fail, einput, Sk, Pair}
use wsd.Start.{Config}
use wsd.Child.{World, is_pp2sk, list_del, after_recv, recv_each, try_recv}
use wsd.Recv.{ws_recv}
use wsd.Recv.Laws.{Message, IsMessage, as_sent, as_proxied, ws_recv_forwards_all}
use wsd.Daemon.Sockets.{find_fd, store, find_fd-store, updated}
use wsd.Daemon.{
  Kernel, Env, put_back, recv_pp2, exchange, opened, after_opening, recv_ws, recv_http, recv_of,
  recv,
}

pub found_first : (x : ℕ) (sk : Sk) (sks : List Sk) → sk.fd ≡ x → find_fd x (sk ∷ sks) ≡ some sk
unfolding find_fd
found_first x sk sks e = rw ((==_iff sk.fd x).1 e)

found_later : (x : ℕ) (sk : Sk) (sks : List Sk) → sk.fd ≢ x → find_fd x (sk ∷ sks) ≡ find_fd x sks
unfolding find_fd
found_later x sk sks n = elim (Bool-cases (sk.fd == x)) [
  | inl same ↦ absurd (n ((==_iff sk.fd x).0 same))
  | inr other ↦ rw other
]

-- A client `sk` that has been upgraded, in a world whose backend is `backend`, and what it has sent.
pub record Sends (w : World) (sk backend : Sk) (m : Message) (ms : List Message) : Type 0 where
  pub client_there : find_fd sk.fd w.sk_list ≡ some sk
  pub backend_there : find_fd backend.fd w.sk_list ≡ some backend
  pub its_backend : w.pp2sk ≡ some backend.fd
  pub apart : backend.fd ≢ sk.fd
  pub is_upgraded : sk.upgraded ≡ true
  pub recv_valid : IsValid sk.recvbuf
  pub send_valid : IsValid backend.sendbuf
  pub messages : All IsMessage (m ∷ ms)
  pub arrived : contents sk.recvbuf ≡ as_sent (m ∷ ms)
  pub fits : length (as_proxied sk (m ∷ ms)) ≤ room backend.sendbuf
  pub stays : sk.close ≡ false
  pub open_ : sk.close_on_write ≡ false

-- What is found in the world afterwards.
pub record Sent (w w' : World) (sk backend : Sk) (text : List ℕ) : Type 0 where
  pub backend' : Sk
  pub client' : Sk
  pub backend_found : find_fd backend.fd w'.sk_list ≡ some backend'
  pub put : contents backend'.sendbuf ≡ contents backend.sendbuf ++ text
  pub to_write : backend'.events.epollout ≡ true
  pub client_found : find_fd sk.fd w'.sk_list ≡ some client'
  pub none_left : contents client'.recvbuf ≡ []
  pub same_events : client'.events ≡ sk.events
  pub others : (x : ℕ) → x ≢ sk.fd → x ≢ backend.fd → find_fd x w'.sk_list ≡ find_fd x w.sk_list
  pub work_done : w'.work_list ≡ []

pub deleted : (fd : ℕ) → list_del fd (fd ∷ []) ≡ []
unfolding list_del
deleted fd = ground arith

newer_none : (r : Option Sk) → updated r none ≡ r
newer_none none = refl
newer_none (some sk) = refl

module _ (w : World) (sk backend : Sk) (c b : Sk) (cs : c.fd ≡ sk.fd) (bs : b.fd ≡ backend.fd)
    (apart : backend.fd ≢ sk.fd) where
  abbrev news : List Sk
  news = c ∷ b ∷ []

  client_stored : find_fd sk.fd w.sk_list ≡ some sk → find_fd sk.fd (store news w.sk_list) ≡ some c
  client_stored there =
      find_fd-store sk.fd news w.sk_list
      ∙ ap (λ r. updated r (find_fd sk.fd news)) there
      ∙ ap (updated (some sk)) (found_first sk.fd c (b ∷ []) cs)

  backend_stored :
      find_fd backend.fd w.sk_list ≡ some backend
      → find_fd backend.fd (store news w.sk_list) ≡ some b
  backend_stored there =
      find_fd-store backend.fd news w.sk_list
      ∙ ap (λ r. updated r (find_fd backend.fd news)) there
      ∙ ap (updated (some backend)) (
          found_later backend.fd c (b ∷ []) (λ e. apart (sym e ∙ cs))
          ∙ found_first backend.fd b [] bs)

  other_stored :
      (x : ℕ) → x ≢ sk.fd → x ≢ backend.fd → find_fd x (store news w.sk_list) ≡ find_fd x w.sk_list
  unfolding find_fd
  other_stored x n o =
      find_fd-store x news w.sk_list
      ∙ ap (updated (find_fd x w.sk_list)) (
          found_later x c (b ∷ []) (λ e. n (sym e ∙ cs)) ∙ found_later x b [] (λ e. o (sym e ∙ bs)))
      ∙ newer_none (find_fd x w.sk_list)

module _ (kernel : Kernel) (accept_value : List ℕ → List ℕ) (cfg : Config) (env : ℕ → Env)
    (w : World) (sk backend : Sk) (m : Message) (ms : List Message)
    (s : Sends w sk backend m ms) where
  abbrev pair : Pair
  pair = record { client = sk; pp2sk = backend }

  not_backend : is_pp2sk sk.fd w ≡ false
  not_backend =
      ap (λ o. elim o [ none ↦ false | some pp2 ↦ pp2 == sk.fd ]) s.its_backend
      ∙ elim (Bool-cases (backend.fd == sk.fd)) [
        | inl same ↦ absurd (s.apart ((==_iff backend.fd sk.fd).0 same))
        | inr other ↦ other
      ]

  exchanged :
      (q : Pair)
      → ws_recv pair ≡ some (fail einput, q)
      → exchange sk backend.fd w
        ≡ some (fail einput, q.client.close_on_write, put_back (q.client ∷ q.pp2sk ∷ []) w)
  exchanged q e =
      ap
        (λ o. o >>= λ (b : Sk). ws_recv (record { client = sk; pp2sk = b }) >>= λ (r : Rv × Pair).
          some (r.0, r.1.client.close_on_write, put_back (r.1.client ∷ r.1.pp2sk ∷ []) w))
        s.backend_there
      ∙ ap
          (λ o. o >>= λ (r : Rv × Pair).
            some (r.0, r.1.client.close_on_write, put_back (r.1.client ∷ r.1.pp2sk ∷ []) w))
          e

  received :
      (q : Pair)
      → ws_recv pair ≡ some (fail einput, q)
      → recv kernel accept_value cfg env sk.fd w
        ≡ some (fail einput, q.client.close_on_write, put_back (q.client ∷ q.pp2sk ∷ []) w)
  unfolding recv
  received q e =
      let here = env sk.fd in
      let by_http = recv_http kernel accept_value cfg here sk w in
      let by_ws = recv_ws kernel accept_value cfg here sk w in
      ap (λ o. o >>= recv_of kernel accept_value cfg here sk.fd w) s.client_there
      ∙ ap (λ t. if t then recv_pp2 sk w else if sk.upgraded then by_ws else by_http) not_backend
      ∙ ap (λ t. if t then by_ws else by_http) s.is_upgraded
      ∙ ap
          (λ o. elim o [
            | some fd ↦ exchange sk fd w
            | none ↦
                opened kernel accept_value cfg here w >>= after_opening kernel accept_value cfg sk
          ])
          s.its_backend
      ∙ exchanged q e

  -- Where the work list holds just a client that has been upgraded, with any number of whole data
  -- frames, at least one, and nothing else in its valid receive buffer, and the valid send buffer of the
  -- backend's socket has room for them with their proxy headers: one round of try_recv puts them all
  -- there, in their order and with the client's addresses and hash, and has epoll wait for a chance to
  -- write; nothing is left of them in the receive buffer, the work list is empty, and all other sockets
  -- are as they were.
  pub try_recv_forwards :
      w.work_list ≡ sk.fd ∷ []
      → (w' : World) × (try_recv (recv kernel accept_value cfg env) w ≡ some w')
        × Sent w w' sk backend (as_proxied sk (m ∷ ms))
  unfolding recv_each after_recv list_del
  try_recv_forwards alone =
      let (q, done, put, none_left, to_write, kept, fd) =
        ws_recv_forwards_all m ms pair s.recv_valid s.send_valid s.messages s.arrived s.fits s.stays
          s.open_ in
      let client_fd = ap (λ (c : Sk). c.fd) kept in
      let news = q.client ∷ q.pp2sk ∷ [] in
      (
        record (put_back news w) { work_list = list_del sk.fd w.work_list },
        ap (λ xs. recv_each (recv kernel accept_value cfg env) xs w) alone
            ∙ ap
                (λ o. elim o [
                  | none ↦ none
                  | some (rv, b, v) ↦
                      recv_each (recv kernel accept_value cfg env) [] (after_recv rv b sk.fd v)
                ])
                (received q done),
        record {
          backend' = q.pp2sk;
          client' = q.client;
          backend_found =
              backend_stored w sk backend q.client q.pp2sk client_fd fd s.apart s.backend_there;
          put = put;
          to_write = to_write;
          client_found =
              client_stored w sk backend q.client q.pp2sk client_fd fd s.apart s.client_there;
          none_left = none_left;
          same_events = ap (λ (c : Sk). c.events) kept;
          others = λ x n o. other_stored w sk backend q.client q.pp2sk client_fd fd s.apart x n o;
          work_done = ap (list_del sk.fd) alone ∙ deleted sk.fd;
        },
      )
