-- ===== src/Tests/Sockets.antt =====
-- The theorems on the sockets of the server, at a few sockets.
use zappy.Prelude.{ℕ, ◌+◌, ◌%◌, ◌≡◌, ◌⊎◌, refl, true, none, some, [], ◌∷◌, arith}
use zappy.Game.{get_client_from_fd}
use zappy.SslTable.{SslTable, ssl_table_init, ssl_table_add}
use zappy.SslTable.Lookup.{IsReady, ssl_table_init-IsReady, get-add}
use zappy.FtList.Pop.Out.{Holds, pop-Holds}
use zappy.FtList.{FtList, ok, ft_list_pop, ft_list_add_last, ft_list_get_first}
use zappy.FtList.Ring.{IsRing, get_first-IsRing}
use zappy.FtList.Append.{add_last-IsRing}
use zappy.Server.{Json, Server, handle_client_message}
use zappy.Server.Access.{Untouched, LogsIn, message-Untouched}
use zappy.Tests.Fixtures.{world}

abbrev pub one_session : SslTable
one_session = (ssl_table_add true ssl_table_init 5 60).1

pub one_session-IsReady : IsReady one_session
one_session-IsReady = (get-add ssl_table_init 5 60 ssl_table_init-IsReady).1

-- The nodes 0, 1 and 2.
abbrev three : FtList
three = record {
  head = some 0;
  item_at = λ q. record { next = some ((q + 1) % 3); prev = some ((q + 2) % 3) };
}

three-IsRing : IsRing three 0 (1 ∷ 2 ∷ [])
three-IsRing = record { head = refl; linked = ground arith; distinct = ground arith }

get_first-IsRing_example : ft_list_get_first 3 three ≡ some (some 1)
get_first-IsRing_example = get_first-IsRing three 0 (1 ∷ 2 ∷ []) 0 three-IsRing

add_last-IsRing_example :
    (l' : FtList) × (ft_list_add_last three (some 7) ≡ some (ok, l')) × IsRing l' 0 (1 ∷ 2 ∷ 7 ∷ [])
add_last-IsRing_example = add_last-IsRing three 0 (1 ∷ 2 ∷ []) 7 three-IsRing (ground arith)

-- The head is taken out.
pop-Holds_example :
    (l' : FtList) × (ft_list_pop three (some 0) ≡ some (ok, l')) × Holds l' (1 ∷ 2 ∷ [])
pop-Holds_example = pop-Holds three 0 (1 ∷ 2 ∷ []) 0 three-IsRing (ground arith)

-- The sockets 10, 11 and 12 are to leave.
abbrev pub server : Server
server = record {
  game = record world { leaving = 10 ∷ 11 ∷ 12 ∷ [] };
  read_fds = λ q. true;
  sock_server = 3;
  closed = [];
}

-- A message that has the string "login" under every name.
abbrev pub parrot : Json ℕ ℕ
parrot = record {
  parse = λ bytes. some bytes;
  get_string = λ root name. some "login";
  prints = λ m. true;
}

abbrev pub one_round : Server
one_round = record server { game = world }

stranger : get_client_from_fd world 99 ≡ none
unfolding get_client_from_fd
stranger = refl

message-Untouched_example :
    Untouched world (handle_client_message parrot world 99 4).1
    ⊎ ((root : ℕ) × (some 4 ≡ some root) × LogsIn parrot root)
message-Untouched_example = message-Untouched parrot world 99 4 stranger
