-- ===== src/Daemon/Tests.antt =====
-- A run of the daemon, and a client whose frames go to the backend.
use wsd.Prelude.{ℕ, ◌≡◌, refl, true, false, none, some, List, [], ◌∷◌, arith}
use wsd.Prelude.Text.{literal}
use wsd.Memory.{window, store_list}
use wsd.Fixtures.{loaded, loaded-IsValid, socket}
use wsd.Pp2.Header.{header}
use wsd.Types.{Timespec, Sk, SockAddr}
use wsd.Start.{Config, initial, configure}
use wsd.Child.{World, connected, try_recv}
use wsd.Daemon.Sockets.{find_fd}
use wsd.Recv.Laws.{Message, IsMessage, as_sent, as_proxied}
use wsd.Daemon.{Env, recv}
use wsd.Daemon.Loop.{accepts, polled, close_each, Round, event_loop, initial_world}
use wsd.Daemon.Invariant.{world_of}
use wsd.Daemon.Forward.{Sends, Sent, try_recv_forwards}
use wsd.Daemon.Kernels.{counting}

abbrev hi : Message
hi = record { byte1 = 0x81; key = 0x01020304; payload = b'h' ∷ b'i' ∷ [] }

abbrev hi-IsMessage : IsMessage hi
hi-IsMessage = record {
  is_data = record { no_rsv = refl; data_opcode = refl };
  key_fits = omega arith;
  bytes = (omega arith, (omega arith, tt));
}

-- Stands for the value that SHA1 and base64 give.
abbrev some_value : List ℕ → List ℕ
some_value text = literal "s3pPLMBiTxaQ9kYGzzhZRbK+xOo="

abbrev cfg : Config
cfg = configure initial 7

abbrev addr : SockAddr
addr = record { sin_addr = 0x0100007f; sin_port = 0x5000 }

abbrev unconnected : ℕ → Env
unconnected fd = record { prev = none; answer = λ num. connected 0 }

abbrev at_second : ℕ → Timespec
at_second n = record { tv_sec = n; tv_nsec = 0 }

-- A client arrives; it sends a part of its request, which stays in the buffer.
abbrev rounds : List Round
rounds =
    record { now = at_second 1; env = unconnected; events = accepts (some (addr, addr)) 0 ∷ [] }
    ∷ record {
      now = at_second 2;
      env = unconnected;
      events =
          polled (record {
            fd = 5;
            ready = record { input = true; output = false; hangup = false };
            input = some (literal "GET /");
            output = none;
            retry = false;
          })
          ∷ [];
    }
    ∷ record { now = at_second 3; env = unconnected; events = [] }
    ∷ []

abbrev final : World
final = world_of (initial_world cfg) (event_loop counting some_value cfg rounds (initial_world cfg))

abbrev ended : World
ended = world_of final (close_each (5 ∷ []) final)

-- A client that has sent two frames, and the backend.
abbrev talker : Sk
talker = record (socket 77 (loaded []) (loaded (as_sent (hi ∷ hi ∷ [])))) {
  fd = 8;
  upgraded = true;
}

abbrev backend : Sk
backend = socket 0 (loaded []) (loaded [])

abbrev both : World
both = record {
  sk_list = talker ∷ backend ∷ [];
  work_list = 8 ∷ [];
  sk_hash = 8 ∷ [];
  dangling = false;
  pp2sk = some 7;
  hosts = record { num = 0; fhostname_num = 1 };
}

talker-Sends : Sends both talker backend hi (hi ∷ [])
unfolding find_fd window store_list header
talker-Sends = record {
  client_there = refl;
  backend_there = refl;
  its_backend = refl;
  apart = λ e. absurd (omega (arith, e));
  is_upgraded = refl;
  recv_valid = loaded-IsValid (as_sent (hi ∷ hi ∷ [])) (omega arith);
  send_valid = loaded-IsValid [] (omega arith);
  messages = (hi-IsMessage, (hi-IsMessage, tt));
  arrived = refl;
  fits = omega arith;
  stays = refl;
  open_ = refl;
}

try_recv_forwards_example :
    (w' : World) × (try_recv (recv counting some_value cfg unconnected) both ≡ some w')
    × Sent both w' talker backend (as_proxied talker (hi ∷ hi ∷ []))
try_recv_forwards_example =
    try_recv_forwards counting some_value cfg unconnected both talker backend hi (hi ∷ [])
      talker-Sends refl
