-- ===== src/Sock.antt =====
-- homa_sock.c, the table of sockets by port, and homa_plumbing.c, `homa_connect` and `homa_do_peeloff`.
-- A socket is a number; `head` and `next` are the pointers of the `hlist` buckets, so that linking a
-- socket twice does what it does to the memory. Of a socket the fields that lookup reads are kept. The
-- table's lock is held throughout each operation, and readers are given a table at rest.
pub mod Ports
pub mod Demux
pub mod Peeloff
mod Tests
use connected_homa.Prelude.{
  ℕ, zero, suc, ◌+◌, ◌%◌, ◌^◌, Bool, true, false, not, ◌&&◌, ◌||◌, Option, none, some, List, [],
  ◌∷◌, ltb, leb, ◌==◌, if◌then◌else◌, update,
}

-- `sk_family`: AF_INET, AF_INET6, or another.
pub data Family : Type 0 where
  inet inet6 other : Family

abbrev pub same_family : Family → Family → Bool
same_family inet inet = true
same_family inet6 inet6 = true
same_family other other = true
same_family _ _ = false

-- A `struct sockaddr`; an address of either family is a number.
pub record Address : Type 0 where
  pub family : Family
  pub addr : ℕ
  pub port : ℕ

-- `struct homa_sock`. An unconnected socket has zeros in `remote_host`.
pub record Sock : Type 0 where
  pub family : Family
  pub port : ℕ
  pub connect : Bool
  pub remote_addr : ℕ
  pub remote_port : ℕ
  pub shutdown : Bool

-- `struct homa_socktab`, with `homa->next_client_port`; the sockets made so far are those below `made`.
pub record Socktab : Type 0 where
  pub head : ℕ → Option ℕ
  pub next : ℕ → Option ℕ
  pub socks : ℕ → Sock
  pub made : ℕ
  pub next_client_port : ℕ

-- HOMA_MIN_DEFAULT_PORT
abbrev pub min_default_port : ℕ
min_default_port = 0x8000

-- `homa_port_hash`, with HOMA_SOCKTAB_BUCKETS.
abbrev pub homa_port_hash : ℕ → ℕ
homa_port_hash port = port % 1024

-- `hlist_add_head_rcu`
pub hlist_add_head : ℕ → ℕ → Socktab → Socktab
hlist_add_head i bucket t = record t {
  head = update t.head bucket (some i);
  next = update t.next i (t.head bucket);
}

-- The entries that a loop over a bucket visits, from a pointer on, if it ends within the fuel.
pub walk : ℕ → (ℕ → Option ℕ) → Option ℕ → List ℕ
walk zero next p = []
walk (suc fuel) next none = []
walk (suc fuel) next (some i) = i ∷ walk fuel next (next i)

-- A loop over a bucket meets each socket at most once, so that `made` rounds are enough, unless a socket
-- has been linked into one bucket twice: then the code loops, and the list here is cut.
abbrev pub bucket_of : Socktab → ℕ → List ℕ
bucket_of t port = walk t.made t.next (t.head (homa_port_hash port))

pub first_on_port : (ℕ → Sock) → ℕ → List ℕ → Option ℕ
first_on_port socks port [] = none
first_on_port socks port (i ∷ is) =
    if (socks i).port == port then some i else first_on_port socks port is

-- `homa_sock_find`
pub homa_sock_find : Socktab → ℕ → Option ℕ
unfolding first_on_port walk
homa_sock_find t port = first_on_port t.socks port (bucket_of t port)

-- The port matches, and so do family, port and address of the remote host.
abbrev pub matches : Address → ℕ → Sock → Bool
matches remote port s =
    s.port == port
    && same_family s.family remote.family
    && not (same_family s.family other)
    && s.remote_port == remote.port
    && s.remote_addr == remote.addr

-- The loop of `homa_sock_find_connected`; the last argument is the local variable `listen`.
pub demux : (ℕ → Sock) → Address → ℕ → List ℕ → Option ℕ → Option ℕ
demux socks remote port [] listen = listen
demux socks remote port (i ∷ is) listen =
    if matches remote port (socks i)
    then some i
    else demux socks remote port is
        (if (socks i).port == port && not (socks i).connect then some i else listen)

-- `homa_sock_find_connected`
pub homa_sock_find_connected : Socktab → Address → ℕ → Option ℕ
unfolding demux walk
homa_sock_find_connected t remote port = demux t.socks remote port (bucket_of t port) none

-- The `while` loop of `homa_sock_init`: the client port that it settles on. `next_client_port` has 16
-- bits.
pub choose_port : ℕ → (ℕ → Bool) → ℕ → Option ℕ
choose_port zero used port = none
choose_port (suc fuel) used port =
    let p = if ltb port min_default_port then min_default_port else port in
    let later = choose_port fuel used ((p + 1) % 2 ^ 16) in if used p then later else some p

abbrev pub is_used : Socktab → ℕ → Bool
is_used t port = elim (homa_sock_find t port) [ none ↦ false | some _ ↦ true ]

-- `homa_sock_init` for the next socket, once the port is chosen.
pub link_new : Family → ℕ → Socktab → Socktab
unfolding hlist_add_head
link_new family port t =
    let sock : Sock = record {
      family = family;
      port = port;
      connect = false;
      remote_addr = 0;
      remote_port = 0;
      shutdown = false;
    } in
    hlist_add_head t.made (homa_port_hash port) (record t {
      socks = update t.socks t.made sock;
      made = t.made + 1;
      next_client_port = (port + 1) % 2 ^ 16;
    })

-- `homa_sock_init`, where memory for the buffer pool is given: the new socket is `t.made`. `none` if
-- the loop over the ports does not end.
pub homa_sock_init : Family → Socktab → Option Socktab
unfolding choose_port link_new
homa_sock_init family t = elim (choose_port (2 ^ 16) (is_used t) t.next_client_port) [
  | none ↦ none
  | some port ↦ some (link_new family port t)
]

pub data Errno : Type 0 where
  eshutdown eisconn einval eafnosupport : Errno

-- `stuck` is the loop of `homa_sock_init` that does not end.
pub data Result : Type 0 where
  ok : Socktab → Result
  err : Errno → Result
  stuck : Result

-- sizeof(struct sockaddr_in) and sizeof(struct sockaddr_in6)
abbrev pub addr_size : Family → ℕ
addr_size inet = 16
addr_size inet6 = 28
addr_size other = 0

-- `__homa_connect` for socket `i`.
pub homa_connect : ℕ → Address → ℕ → Socktab → Result
homa_connect i remote addr_len t =
    let s = t.socks i in
    let s' = record s { connect = true; remote_addr = remote.addr; remote_port = remote.port } in
    if s.shutdown
    then err eshutdown
    else if s.connect
    then err eisconn
    else if same_family s.family other
    then err eafnosupport
    else if ltb addr_len (addr_size s.family)
    then err einval
    else ok (record t { socks = update t.socks i s' })

-- What `homa_do_peeloff` does to the new socket `i` once `sock_create` has run `homa_sock_init` for it:
-- it takes the port of `s`, is connected, and is linked into that port's bucket.
pub relink : ℕ → Sock → Address → Socktab → Socktab
unfolding hlist_add_head
relink i s remote t =
    let new = record (t.socks i) {
      port = s.port;
      connect = true;
      remote_addr = remote.addr;
      remote_port = remote.port;
      shutdown = false;
    } in
    hlist_add_head i (homa_port_hash s.port) (record t { socks = update t.socks i new })

-- `homa_do_peeloff` for socket `i`; `same_net` is the answer of `net_eq`. Memory is given.
pub homa_do_peeloff : Bool → ℕ → Address → ℕ → Socktab → Result
unfolding relink
homa_do_peeloff same_net i remote addr_len t =
    let s = t.socks i in
    if s.shutdown
    then err eshutdown
    else if not same_net
    then err einval
    else if not (same_family s.family other) && not (same_family s.family remote.family)
    then err einval
    else if ltb addr_len (addr_size s.family)
    then err einval
    else elim (homa_sock_init s.family t) [
      | none ↦ stuck
      | some t' ↦ ok (relink t.made s remote t')
    ]
