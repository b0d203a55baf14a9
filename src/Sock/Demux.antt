-- ===== src/Sock/Demux.antt =====
-- To which socket a packet goes.
use connected_homa.Prelude.{
  ℕ, update, subst, ◌≡◌, refl, ◌⊎◌, inl, inr, Bool, true, false, not, ◌&&◌, ◌||◌, Option, none,
  some, List, [], ◌∷◌, ◌==◌, if◌then◌else◌, arith, Bool-cases,
}
use connected_homa.Sock.{
  Address, Sock, Socktab, ok, matches, demux, homa_sock_find_connected, bucket_of, homa_connect,
}

-- What `listen` holds: an unconnected socket on the port.
abbrev Listening : (ℕ → Sock) → ℕ → Option ℕ → Type 0
Listening socks port none = Unit {0}
Listening socks port (some i) = ((socks i).port ≡ port) × ((socks i).connect ≡ false)

demux-only :
    (socks : ℕ → Sock) (remote : Address) (port i : ℕ) (is : List ℕ) (listen : Option ℕ)
    → Listening socks port listen
    → demux socks remote port is listen ≡ some i
    → ((socks i).port ≡ port)
      × ((matches remote port (socks i) ≡ true) ⊎ ((socks i).connect ≡ false))
unfolding demux
demux-only socks remote port i [] none l e = absurd (cc)
demux-only socks remote port i [] (some j) l e = ground arith
demux-only socks remote port i (j ∷ is) listen l e =
    let is_listener = (socks j).port == port && not (socks j).connect in
    elim (Bool-cases (matches remote port (socks j))) [
      | inl hit ↦ ground arith
      | inr miss ↦ elim (Bool-cases is_listener) [
        | inl listens ↦
            demux-only socks remote port i is (some j) (ground arith, ground arith)
              (rw (miss, listens, demux) at e)
        | inr silent ↦ demux-only socks remote port i is listen l (rw (miss, silent, demux) at e)
      ]
    ]

-- A packet goes to a socket on its port, and to a connected one only if its sender is the host and port
-- that the socket is connected to.
pub homa_sock_find_connected-only :
    (t : Socktab) (remote : Address) (port i : ℕ)
    → homa_sock_find_connected t remote port ≡ some i
    → ((t.socks i).port ≡ port)
      × ((matches remote port (t.socks i) ≡ true) ⊎ ((t.socks i).connect ≡ false))
unfolding homa_sock_find_connected
homa_sock_find_connected-only t remote port i e =
    demux-only t.socks remote port i (bucket_of t port) none tt e

abbrev pub any_matches : (ℕ → Sock) → Address → ℕ → List ℕ → Bool
any_matches socks remote port [] = false
any_matches socks remote port (i ∷ is) =
    matches remote port (socks i) || any_matches socks remote port is

demux-matches :
    (socks : ℕ → Sock) (remote : Address) (port : ℕ) (is : List ℕ) (listen : Option ℕ)
    → any_matches socks remote port is ≡ true
    → (i : ℕ) × (demux socks remote port is listen ≡ some i)
      × (matches remote port (socks i) ≡ true)
unfolding demux
demux-matches socks remote port [] listen h = absurd (cc)
demux-matches socks remote port (j ∷ is) listen h =
    elim (Bool-cases (matches remote port (socks j))) [
      | inl hit ↦ (j, rw (hit, demux) refl, hit)
      | inr miss ↦
          let later = if (socks j).port == port && not (socks j).connect then some j else listen in
          let (i, e, m) = demux-matches socks remote port is later (rw miss at h) in
          (i, rw (miss, demux) e, m)
    ]

-- Where the bucket has a socket with the sender as its remote host, the packet goes to such a socket,
-- and not to one that listens.
homa_sock_find_connected-prefers :
    (t : Socktab) (remote : Address) (port : ℕ)
    → any_matches t.socks remote port (bucket_of t port) ≡ true
    → (i : ℕ) × (homa_sock_find_connected t remote port ≡ some i)
      × (matches remote port (t.socks i) ≡ true)
unfolding homa_sock_find_connected
homa_sock_find_connected-prefers t remote port h =
    demux-matches t.socks remote port (bucket_of t port) none h

connected_to :
    (i addr_len : ℕ) (remote : Address) (t t' : Socktab)
    → homa_connect i remote addr_len t ≡ ok t'
    → ((t'.socks i).connect ≡ true)
      × ((t'.socks i).remote_addr ≡ remote.addr)
      × ((t'.socks i).remote_port ≡ remote.port)
unfolding homa_connect
connected_to i addr_len remote t t' e =
    let s = t.socks i in
    let s' : Sock = record s {
      connect = true;
      remote_addr = remote.addr;
      remote_port = remote.port;
    } in
    let t'' : Socktab = record t { socks = update t.socks i s' } in
    let same : t'' ≡ t' = ground arith in
    subst
      (λ u.
        ((u.socks i).connect ≡ true)
        × ((u.socks i).remote_addr ≡ remote.addr)
        × ((u.socks i).remote_port ≡ remote.port))
      same (ground arith)

-- After a successful connect, the socket gets no packets but those of the host and port it was
-- connected to.
pub homa_connect-isolates :
    (i addr_len port : ℕ) (remote sender : Address) (t t' : Socktab)
    → homa_connect i remote addr_len t ≡ ok t'
    → homa_sock_find_connected t' sender port ≡ some i
    → (sender.addr ≡ remote.addr) × (sender.port ≡ remote.port)
unfolding homa_connect
homa_connect-isolates i addr_len port remote sender t t' e f =
    let (on_port, only) = homa_sock_find_connected-only t' sender port i f in
    let connected = connected_to i addr_len remote t t' e in ground arith
