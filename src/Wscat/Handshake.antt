-- ===== src/Wscat/Handshake.antt =====
-- One round of try_recv of the daemon takes the request of wscat, and wscat takes the reply.
mod Tests
use wsd.Prelude.{
  ℕ, ◌≡◌, refl, sym, ap, ◌∙◌, Bool, true, false, if◌then◌else◌, Option, none, some, List, [], ◌∷◌,
  ◌++◌, length,
}
use mathlib.Core.Option.{some-injective}
use wsd.Prelude.Options.{◌>>=◌}
use wsd.Skb.{reset}
use wsd.Skb.Contents.{IsValid, contents, contents-reset}
use wsd.Sock.{with_recvbuf}
use wsd.Wscat.State.{Cat}
use wsd.Wscat.Request.Reply.{wssk_http_recv-whole_reply}
use wsd.Types.{Rv, ok, Sk, SkOutcome}
use wsd.Http.Parser.{Req}
use wsd.Http.Recv.{http_recv}
use wsd.Upgrade.{ws_guid, ws_decode_handshake}
use wsd.Upgrade.Reply.{value, whole_reply}
use wsd.Start.{Config}
use wsd.Child.{World, is_pp2sk, list_del, after_recv, recv_each, try_recv}
use wsd.Daemon.{Kernel, Env, put_back, recv_pp2, recv_ws, recv_http, recv_of, recv}
use wsd.Daemon.Sockets.{find_fd, store, find_fd-store, updated}
use wsd.Daemon.Forward.{found_first, deleted}
use wsd.Wscat.Request.{RequestConfig, ready, wssk_http_recv}
use wsd.Wscat.Request.Found.{Found}
use wsd.Wscat.Request.Upgraded.{CanUpgrade, request_upgrades}

-- A client `sk` that has just sent the request of wscat, in a world where it is not the backend.
pub record Asks (w : World) (sk : Sk) (request : RequestConfig) : Type 0 where
  pub client_there : find_fd sk.fd w.sk_list ≡ some sk
  pub no_backend : is_pp2sk sk.fd w ≡ false
  pub not_upgraded : sk.upgraded ≡ false
  pub can : CanUpgrade request sk
  pub alone : w.work_list ≡ sk.fd ∷ []

-- What the client and the world are afterwards.
pub record Answered (accept_value : List ℕ → List ℕ) (w w' : World) (sk : Sk)
    (request : RequestConfig) : Type 0 where
  pub req : Req
  pub found : Found request req
  pub client' : Sk
  pub client_found : find_fd sk.fd w'.sk_list ≡ some client'
  pub sent : contents client'.sendbuf ≡ contents sk.sendbuf ++ whole_reply accept_value req
  pub accept : value accept_value req ≡ accept_value (request.sec_ws_key ++ ws_guid)
  pub upgraded : client'.upgraded ≡ true
  pub to_write : client'.events.epollout ≡ true
  pub none_left : contents client'.recvbuf ≡ []
  pub work_done : w'.work_list ≡ []
  pub same_backend : w'.pp2sk ≡ w.pp2sk

module _ (kernel : Kernel) (accept_value : List ℕ → List ℕ)
    (base64_size : (text : List ℕ) → length (accept_value text) ≡ 28) (cfg : Config)
    (any_proto : cfg.sec_ws_proto ≡ none) (env : ℕ → Env) (w : World) (sk : Sk)
    (request : RequestConfig) (a : Asks w sk request) where
  received :
      (sk' : Sk)
      → http_recv (ws_decode_handshake accept_value none) (env sk.fd).prev sk ≡ some (ok, sk')
      → recv kernel accept_value cfg env sk.fd w
        ≡ some (ok, sk'.close_on_write, put_back (sk' ∷ []) w)
  unfolding recv
  received sk' e =
      let here = env sk.fd in
      let by_http = recv_http kernel accept_value cfg here sk w in
      let by_ws = recv_ws kernel accept_value cfg here sk w in
      ap (λ o. o >>= recv_of kernel accept_value cfg here sk.fd w) a.client_there
      ∙ ap (λ t. if t then recv_pp2 sk w else if sk.upgraded then by_ws else by_http) a.no_backend
      ∙ ap (λ t. if t then by_ws else by_http) a.not_upgraded
      ∙ ap (λ o. o >>= λ (r : Rv × Sk). some (r.0, r.1.close_on_write, put_back (r.1 ∷ []) w))
          (ap (λ p. http_recv (ws_decode_handshake accept_value p) here.prev sk) any_proto ∙ e)

  -- Where the work list holds just a client that is not upgraded and not the backend's socket, and its
  -- valid receive buffer holds just the request of wscat: with a target that begins with a slash and has
  -- no space, the version 13, a key of 2 to 26 characters without a blank, a protocol that is not empty
  -- if there is one, and only characters that the daemon knows, all no longer than a buffer; where the
  -- daemon expects no protocol, the valid send buffer has room for the reply, and the accept value has
  -- 28 characters for every text: one round of try_recv accepts it. The request is found with the values
  -- that wscat has put there; the client then speaks websocket, its send buffer has the reply with the
  -- accept value of wscat's key and the GUID appended, epoll waits for a chance to write it, and nothing
  -- is left to read; the work list is empty, and the backend is as before.
  pub try_recv_upgrades :
      (w' : World) × (try_recv (recv kernel accept_value cfg env) w ≡ some w')
      × Answered accept_value w w' sk request
  unfolding recv_each after_recv list_del
  try_recv_upgrades =
      let (req, sk', f, done, sent, accept, upgraded, waits, empty, fd) =
        request_upgrades accept_value base64_size request (env sk.fd).prev sk a.can in
      let next = recv kernel accept_value cfg env in
      (
        record (put_back (sk' ∷ []) w) { work_list = list_del sk.fd w.work_list },
        ap (λ xs. recv_each next xs w) a.alone
            ∙ ap
                (λ o. elim o [
                  | none ↦ none
                  | some (rv, b, v) ↦ recv_each next [] (after_recv rv b sk.fd v)
                ])
                (received sk' done),
        record {
          req = req;
          found = f;
          client' = sk';
          client_found =
              find_fd-store sk.fd (sk' ∷ []) w.sk_list
              ∙ ap (λ r. updated r (find_fd sk.fd (sk' ∷ []))) a.client_there
              ∙ ap (updated (some sk)) (found_first sk.fd sk' [] fd);
          sent = sent;
          accept = accept;
          upgraded = upgraded;
          to_write = waits;
          none_left = empty;
          work_done = ap (list_del sk.fd) a.alone ∙ deleted sk.fd;
          same_backend = refl;
        },
      )

  -- Under the conditions of try_recv_upgrades, with a send buffer of the client that was empty: when
  -- wscat has received just what the client's send buffer holds after the round of try_recv, in a valid
  -- buffer, wssk_http_recv makes wscat ready, so that both ends speak websocket and neither has anything
  -- left to read. Where the tokenizer of wscat was makes no difference.
  pub both_ready :
      (w' : World) (client : Sk) (prev : Option (List ℕ)) (cat : Cat) (wssk : Sk)
      → try_recv (recv kernel accept_value cfg env) w ≡ some w'
      → find_fd sk.fd w'.sk_list ≡ some client
      → contents sk.sendbuf ≡ []
      → IsValid wssk.recvbuf
      → contents wssk.recvbuf ≡ contents client.sendbuf
      → (cat' : Cat) × (wssk' : Sk) × (wssk_http_recv prev cat wssk ≡ (ok, cat'))
        × (cat'.wssk ≡ some wssk')
        × (wssk'.upgraded ≡ true)
        × (client.upgraded ≡ true)
        × (contents wssk'.recvbuf ≡ [])
        × (contents client.recvbuf ≡ [])
  both_ready w' client prev cat wssk done there empty v arrived =
      let (w'', done', q) = try_recv_upgrades in
      let same : w'' ≡ w' = some-injective w'' w' (sym done' ∙ done) in
      let found : find_fd sk.fd w''.sk_list ≡ some client =
        ap (λ (u : World). find_fd sk.fd u.sk_list) same ∙ there in
      let is_client : q.client' ≡ client =
        some-injective q.client' client (sym q.client_found ∙ found) in
      let text : contents client.sendbuf ≡ whole_reply accept_value q.req =
        sym (ap (λ (c : Sk). contents c.sendbuf) is_client)
        ∙ q.sent
        ∙ ap (λ t. t ++ whole_reply accept_value q.req) empty in
      (
        (ready cat wssk).1,
        record (with_recvbuf wssk (reset wssk.recvbuf)) { upgraded = true },
        wssk_http_recv-whole_reply accept_value q.req prev cat wssk v (arrived ∙ text),
        refl,
        refl,
        sym (ap (λ (c : Sk). c.upgraded) is_client) ∙ q.upgraded,
        contents-reset wssk.recvbuf,
        sym (ap (λ (c : Sk). contents c.recvbuf) is_client) ∙ q.none_left,
      )
