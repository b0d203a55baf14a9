-- ===== src/Sock/Tests.antt =====
-- Runs on small tables: client ports that are taken, a packet for a connected socket and for a
-- listener.
use connected_homa.Prelude.{
  ℕ, ◌≡◌, refl, ◌⊎◌, Bool, true, false, none, some, ◌==◌, if◌then◌else◌, ◌^◌, is_some, arith,
}
use connected_homa.Sock.{
  inet, Address, Sock, Socktab, ok, matches, bucket_of, homa_sock_find_connected, homa_sock_find,
  homa_connect, choose_port, homa_sock_init, is_used, relink, homa_do_peeloff, walk, link_new,
}
use connected_homa.Sock.Peeloff.{Elsewhere, homa_do_peeloff-hides}
use connected_homa.Sock.Demux.{homa_sock_find_connected-only, any_matches}

-- The two highest client ports are taken.
abbrev taken : ℕ → Bool
taken port = if port == 65534 then true else port == 65535

choose_wraps : choose_port 3 taken 65534 ≡ some 32768
unfolding choose_port
choose_wraps = refl

abbrev client : Address
client = record { family = inet; addr = 7; port = 40000 }

abbrev listener : Sock
listener = record {
  family = inet;
  port = 99;
  connect = false;
  remote_addr = 0;
  remote_port = 0;
  shutdown = false;
}

abbrev peeled : Sock
peeled = record {
  family = inet;
  port = 99;
  connect = true;
  remote_addr = 7;
  remote_port = 40000;
  shutdown = false;
}

-- The bucket of port 99 has a listener, socket 0, before a socket that is connected to the client.
abbrev table : Socktab
table = record {
  head = λ b. if b == 99 then some 0 else none;
  next = λ i. if i == 0 then some 1 else none;
  socks = λ i. if i == 0 then listener else peeled;
  made = 2;
  next_client_port = 32768;
}

demux_hit : homa_sock_find_connected table client 99 ≡ some 1
unfolding homa_sock_find_connected
demux_hit = refl

homa_sock_find_connected-only_example :
    ((table.socks 1).port ≡ 99)
    × ((matches client 99 (table.socks 1) ≡ true) ⊎ ((table.socks 1).connect ≡ false))
homa_sock_find_connected-only_example = homa_sock_find_connected-only table client 99 1 demux_hit

any_peeled : any_matches table.socks client 99 (bucket_of table 99) ≡ true
unfolding walk
any_peeled = refl

-- The table after socket 0 has been connected to the client too.
abbrev joined : Socktab
joined = record table {
  socks = λ j.
      if j == 0
      then record listener { connect = true; remote_addr = 7; remote_port = 40000 }
      else table.socks j;
}

joined_eq : homa_connect 0 client 16 table ≡ ok joined
unfolding homa_connect
joined_eq = refl

joined_hit : homa_sock_find_connected joined client 99 ≡ some 0
unfolding homa_sock_find_connected
joined_hit = refl

-- A first socket gets the first client port and is found there.
abbrev empty : Socktab
empty = record table { head = λ b. none; next = λ i. none; made = 0 }

init_found : is_some (homa_sock_find (link_new inet 32768 empty) 32768) ≡ true
unfolding homa_sock_find link_new
init_found = refl

-- A listener, and a client on port 32768; the next client port hashes like the client's.
abbrev crowded : Socktab
crowded = record {
  head = λ b. if b == 99 then some 0 else if b == 0 then some 1 else none;
  next = λ i. none;
  socks = λ i. if i == 0 then listener else record listener { port = 32768 };
  made = 2;
  next_client_port = 33792;
}

abbrev peeled_table : Socktab
peeled_table = relink 2 listener client (link_new inet 33792 crowded)

chosen : choose_port (2 ^ 16) (is_used crowded) 33792 ≡ some 33792
unfolding choose_port homa_sock_find
chosen = refl

peeled_eq : homa_do_peeloff true 0 client 16 crowded ≡ ok peeled_table
unfolding homa_do_peeloff homa_sock_init homa_sock_find
peeled_eq = refl

crowded_found : homa_sock_find crowded 32768 ≡ some 1
unfolding homa_sock_find
crowded_found = refl

listener-Elsewhere : Elsewhere 2 0 crowded.socks (bucket_of crowded 99)
unfolding walk
listener-Elsewhere = (omega arith, λ e. cc, tt)

-- The client of `crowded_found` is lost.
homa_do_peeloff-hides_example : homa_sock_find peeled_table 32768 ≡ none
homa_do_peeloff-hides_example =
    homa_do_peeloff-hides 0 16 33792 32768 client crowded peeled_table peeled_eq chosen (λ e. cc)
      listener-Elsewhere refl
