-- ===== src/Sock/Peeloff.antt =====
-- What peeling a connection off does to the table of sockets.
use connected_homa.Prelude.{
  ℕ, zero, suc, ◌+◌, ◌^◌, ◌<◌, ◌≡◌, ◌≢◌, refl, ap, subst, ◌∙◌, true, false, Option, none, some,
  List, [], ◌∷◌, ◌==◌, arith,
}
use connected_homa.Sock.{
  Family, Address, Sock, Socktab, ok, homa_port_hash, walk, bucket_of, first_on_port,
  homa_sock_find, choose_port, is_used, link_new, homa_sock_init, relink, homa_do_peeloff,
}

-- All of a list's sockets were made before socket `i` and belong to another bucket than `h`.
abbrev pub Elsewhere : ℕ → ℕ → (ℕ → Sock) → List ℕ → Type 0
Elsewhere i h socks [] = Unit {0}
Elsewhere i h socks (j ∷ is) =
    (j < i) × (homa_port_hash (socks j).port ≢ h) × Elsewhere i h socks is

walk-agrees :
    (fuel i h : ℕ) (socks : ℕ → Sock) (next next' : ℕ → Option ℕ) (p : Option ℕ)
    → Elsewhere i h socks (walk fuel next p)
    → ((j : ℕ) → j < i → next' j ≡ next j)
    → walk fuel next' p ≡ walk fuel next p
unfolding walk
walk-agrees zero i h socks next next' p e a = refl
walk-agrees (suc fuel) i h socks next next' none e a = refl
walk-agrees (suc fuel) i h socks next next' (some j) (lt, ne, e) a =
    rw (a j lt) (ap (λ l. j ∷ l) (walk-agrees fuel i h socks next next' (next j) e a))

first_on_port-none :
    (i h port : ℕ) (socks socks' : ℕ → Sock) (is : List ℕ)
    → Elsewhere i h socks is
    → ((j : ℕ) → j < i → socks' j ≡ socks j)
    → homa_port_hash port ≡ h
    → first_on_port socks' port is ≡ none
unfolding first_on_port
first_on_port-none i h port socks socks' [] e a k = refl
first_on_port-none i h port socks socks' (j ∷ is) (lt, ne, e) a k =
    let rest = first_on_port-none i h port socks socks' is e a k in
    let differs : ((socks j).port == port) ≡ false = ground (arith, ne) in rw (a j lt, differs) rest

init_some :
    (q : ℕ) (family : Family) (t : Socktab)
    → choose_port (2 ^ 16) (is_used t) t.next_client_port ≡ some q
    → homa_sock_init family t ≡ some (link_new family q t)
unfolding homa_sock_init
init_some q family t c = rw (c, homa_sock_init) refl

peeled_off :
    (i addr_len q : ℕ) (remote : Address) (t t' : Socktab)
    → homa_do_peeloff true i remote addr_len t ≡ ok t'
    → choose_port (2 ^ 16) (is_used t) t.next_client_port ≡ some q
    → relink t.made (t.socks i) remote (link_new (t.socks i).family q t) ≡ t'
unfolding homa_do_peeloff
peeled_off i addr_len q remote t t' e c =
    let init = init_some q (t.socks i).family t c in ground (arith, init)

walk-more : (n i : ℕ) (next : ℕ → Option ℕ) → walk (n + 1) next (some i) ≡ i ∷ walk n next (next i)
unfolding walk
walk-more n i next =
    let one : suc n ≡ n + 1 = omega arith in
    subst (λ k. walk k next (some i) ≡ i ∷ walk n next (next i)) one refl

abbrev after : Sock → Family → ℕ → Address → Socktab → Socktab
after s family q remote t = relink t.made s remote (link_new family q t)

after-head :
    (s : Sock) (family : Family) (q port : ℕ) (remote : Address) (t : Socktab)
    → homa_port_hash q ≢ homa_port_hash s.port
    → homa_port_hash port ≡ homa_port_hash q
    → (after s family q remote t).head (homa_port_hash port) ≡ some t.made
unfolding relink link_new
after-head s family q port remote t apart k = ground (arith, apart)

after-next :
    (s : Sock) (family : Family) (q : ℕ) (remote : Address) (t : Socktab)
    → homa_port_hash q ≢ homa_port_hash s.port
    → (after s family q remote t).next t.made ≡ t.head (homa_port_hash s.port)
unfolding relink link_new
after-next s family q remote t apart = ground (arith, apart)

after-old :
    (s : Sock) (family : Family) (q j : ℕ) (remote : Address) (t : Socktab)
    → j < t.made
    → ((after s family q remote t).next j ≡ t.next j)
      × ((after s family q remote t).socks j ≡ t.socks j)
unfolding relink link_new
after-old s family q j remote t h = ground arith

after-new :
    (s : Sock) (family : Family) (q : ℕ) (remote : Address) (t : Socktab)
    → ((after s family q remote t).socks t.made).port ≡ s.port
unfolding relink link_new
after-new s family q remote t = ground arith

after-made :
    (s : Sock) (family : Family) (q : ℕ) (remote : Address) (t : Socktab)
    → (after s family q remote t).made ≡ t.made + 1
unfolding relink link_new
after-made s family q remote t = refl

-- The bucket of `q` now holds the new socket, and behind it the other bucket.
bucket_of-after :
    (s : Sock) (family : Family) (q port : ℕ) (remote : Address) (t : Socktab)
    → homa_port_hash q ≢ homa_port_hash s.port
    → Elsewhere t.made (homa_port_hash q) t.socks (bucket_of t s.port)
    → homa_port_hash port ≡ homa_port_hash q
    → bucket_of (after s family q remote t) port ≡ t.made ∷ bucket_of t s.port
bucket_of-after s family q port remote t apart e k =
    let t' : Socktab = after s family q remote t in
    let chain =
      walk-agrees t.made t.made (homa_port_hash q) t.socks t.next t'.next
        (t.head (homa_port_hash s.port)) e (λ j h. (after-old s family q j remote t h).0) in
    rw (after-made s family q remote t, after-head s family q port remote t apart k)
      (walk-more t.made t.made t'.next
        ∙ (rw (after-next s family q remote t apart) (ap (λ l. t.made ∷ l) chain)))

relinked :
    (s : Sock) (family : Family) (q port : ℕ) (remote : Address) (t : Socktab)
    → homa_port_hash q ≢ homa_port_hash s.port
    → Elsewhere t.made (homa_port_hash q) t.socks (bucket_of t s.port)
    → homa_port_hash port ≡ homa_port_hash q
    → homa_sock_find (after s family q remote t) port ≡ none
unfolding homa_sock_find first_on_port
relinked s family q port remote t apart e k =
    let t' : Socktab = after s family q remote t in
    let new = after-new s family q remote t in
    let differs : ((t'.socks t.made).port == port) ≡ false = ground (arith, apart) in
    let rest =
      first_on_port-none t.made (homa_port_hash q) port t.socks t'.socks (bucket_of t s.port) e
        (λ j h. (after-old s family q j remote t h).1) k in
    rw (bucket_of-after s family q port remote t apart e k) (rw differs rest)

-- Where `homa_sock_init` chose a client port from another bucket than that of the listening port, and
-- every socket in the listening port's bucket was made earlier and belongs to another bucket than the
-- client port's: after a successful `homa_do_peeloff`, no socket is found on any port of the client
-- port's bucket.
pub homa_do_peeloff-hides :
    (i addr_len q port : ℕ) (remote : Address) (t t' : Socktab)
    → homa_do_peeloff true i remote addr_len t ≡ ok t'
    → choose_port (2 ^ 16) (is_used t) t.next_client_port ≡ some q
    → homa_port_hash q ≢ homa_port_hash (t.socks i).port
    → Elsewhere t.made (homa_port_hash q) t.socks (bucket_of t (t.socks i).port)
    → homa_port_hash port ≡ homa_port_hash q
    → homa_sock_find t' port ≡ none
homa_do_peeloff-hides i addr_len q port remote t t' e c apart others k =
    subst (λ u. homa_sock_find u port ≡ none) (peeled_off i addr_len q remote t t' e c)
      (relinked (t.socks i) (t.socks i).family q port remote t apart others k)
