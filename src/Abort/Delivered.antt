-- ===== src/Abort/Delivered.antt =====
-- No client RPC is forgotten when those of a socket are aborted.
use connected_homa.Prelude.{
  ℕ, ◌≡◌, refl, ap, sym, subst, ◌∙◌, inl, inr, true, false, not, ◌&&◌, ◌||◌, Option, none, List, [],
  ◌∷◌, ◌==◌, Bool-cases, arith, if_false,
}
use connected_homa.Rpc.{is_client}
use connected_homa.Handoff.{Cores}
use connected_homa.Table.{Hsk, has}
use connected_homa.Lifecycle.{is_dead}
use connected_homa.Lifecycle.Live.{Live}
use connected_homa.Lifecycle.Ends.{homa_rpc_free-id, homa_rpc_free-dead, homa_rpc_free-active}
use connected_homa.Abort.{abort_one, abort_clients, homa_abort_sock_rpcs}
use connected_homa.Abort.Keeps.{homa_abort_sock_rpcs-Live}

free_one-id :
    (c : Cores) (r q : ℕ) (s : Hsk) → ((abort_one c none r s).rpcs q).rpc.id ≡ (s.rpcs q).rpc.id
unfolding abort_one
free_one-id c r q s =
    elim (Bool-cases (is_client (s.rpcs r).rpc.id && not (is_dead (s.rpcs r).rpc.state))) [
      | inl client ↦ rw client (homa_rpc_free-id r q s)
      | inr other ↦ rw other refl
    ]

free_one-active :
    (c : Cores) (r q : ℕ) (s : Hsk)
    → has q (abort_one c none r s).active_rpcs ≡ true
    → has q s.active_rpcs ≡ true
unfolding abort_one
free_one-active c r q s =
    elim (Bool-cases (is_client (s.rpcs r).rpc.id && not (is_dead (s.rpcs r).rpc.state))) [
      | inl client ↦ rw client (homa_rpc_free-active r q s)
      | inr other ↦ rw other (λ h. h)
    ]

-- What is dead stays dead, and the client RPC of the round is dead after it.
free_one-dead :
    (c : Cores) (r q : ℕ) (s : Hsk)
    → is_client (s.rpcs q).rpc.id ≡ true
    → (r == q || is_dead (s.rpcs q).rpc.state) ≡ true
    → is_dead ((abort_one c none r s).rpcs q).rpc.state ≡ true
unfolding abort_one
free_one-dead c r q s client h =
    elim (Bool-cases (is_client (s.rpcs r).rpc.id && not (is_dead (s.rpcs r).rpc.state))) [
      | inl mine ↦
          let (self, others) = homa_rpc_free-dead r q s in
          rw mine (elim (Bool-cases (r == q)) [
            | inl same ↦ self same
            | inr other ↦ others other ∙ ground (arith, h, other)
          ])
      | inr other ↦ rw other (elim (Bool-cases (r == q)) [
        | inl same ↦
            let e : r ≡ q = ground arith in
            ground (
              arith,
              other,
              client,
              ap (λ x. is_client (s.rpcs x).rpc.id) e,
              ap (λ x. is_dead (s.rpcs x).rpc.state) e,
            )
        | inr differ ↦ ground (arith, h, differ)
      ])
    ]

free_all :
    (c : Cores) (rs : List ℕ) (q : ℕ) (s : Hsk)
    → is_client (s.rpcs q).rpc.id ≡ true
    → (has q rs || is_dead (s.rpcs q).rpc.state) ≡ true
    → is_dead ((abort_clients c none rs s).rpcs q).rpc.state ≡ true
unfolding abort_clients
free_all c [] q s client h = ground (arith, h)
free_all c (r ∷ rs) q s client h =
    let client' = ap is_client (free_one-id c r q s) ∙ client in
    free_all c rs q (abort_one c none r s) client'
      (elim (Bool-cases (r == q || is_dead (s.rpcs q).rpc.state)) [
        | inl now ↦ ground (arith, free_one-dead c r q s client now)
        | inr later ↦ ground (arith, h, later)
      ])

free_all-active :
    (c : Cores) (rs : List ℕ) (q : ℕ) (s : Hsk)
    → has q (abort_clients c none rs s).active_rpcs ≡ true
    → (has q s.active_rpcs ≡ true)
      × (((abort_clients c none rs s).rpcs q).rpc.id ≡ (s.rpcs q).rpc.id)
unfolding abort_clients
free_all-active c [] q s h = (h, refl)
free_all-active c (r ∷ rs) q s h =
    let (was, ids) = free_all-active c rs q (abort_one c none r s) h in
    (free_one-active c r q s was, ids ∙ free_one-id c r q s)

pub opened :
    (c : Cores) (error : Option ℕ) (s : Hsk)
    → s.shutdown ≡ false
    → homa_abort_sock_rpcs c error s ≡ abort_clients c error s.active_rpcs s
unfolding homa_abort_sock_rpcs
opened c error s up = if_false s.shutdown s (abort_clients c error s.active_rpcs s) up

-- With no error code, `homa_abort_sock_rpcs` leaves a socket that is not shut down no active client RPC.
pub homa_abort_sock_rpcs-frees :
    (next : ℕ) (c : Cores) (s : Hsk) (q : ℕ)
    → Live next s
    → s.shutdown ≡ false
    → let s' = homa_abort_sock_rpcs c none s in
      (has q s'.active_rpcs && is_client (s'.rpcs q).rpc.id) ≡ false
homa_abort_sock_rpcs-frees next c s q l up =
    subst (λ x. (has q x.active_rpcs && is_client (x.rpcs q).rpc.id) ≡ false)
      (sym (opened c none s up))
      (elim (Bool-cases (has q s'.active_rpcs)) [
        | inl there ↦ ground (arith, server there)
        | inr absent ↦ rw absent refl
      ])
  where
    s' : Hsk
    s' = abort_clients c none s.active_rpcs s

    l' : Live next s'
    l' = subst (Live next) (opened c none s up) (homa_abort_sock_rpcs-Live next c none s l)

    server : has q s'.active_rpcs ≡ true → is_client (s'.rpcs q).rpc.id ≡ false
    server there =
        let (was, ids) = free_all-active c s.active_rpcs q s there in
        elim (Bool-cases (is_client (s'.rpcs q).rpc.id)) [
          | inr e ↦ e
          | inl client ↦
              let ended =
                free_all c s.active_rpcs q s (ap is_client (sym ids) ∙ client) (rw was refl) in
              absurd (ground (arith, l'.alive q there, ended))
        ]
