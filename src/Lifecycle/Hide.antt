-- ===== src/Lifecycle/Hide.antt =====
-- An RPC that is freed is found no more, and no other is lost.
use connected_homa.Prelude.{
  ℕ, ◌≡◌, ◌≢◌, refl, ap, sym, ◌∙◌, inl, inr, true, false, not, ◌&&◌, Option, none, some, ◌==◌,
  arith, Bool-cases, if◌then◌else◌,
}
use connected_homa.Rpc.{is_client}
use connected_homa.Table.{Hsk, has, homa_find_client_rpc, homa_find_server_rpc}
use connected_homa.Lifecycle.{is_dead, bury, homa_rpc_free}
use connected_homa.Lifecycle.Live.{Live}
use connected_homa.Lifecycle.Free.{wake_interest-Same, bury-id, bury-active, homa_rpc_free-Live}
use connected_homa.Lifecycle.Find.{homa_find_client_rpc-finds, homa_find_server_rpc-finds}

freed-active :
    (r q : ℕ) (s : Hsk)
    → is_dead (s.rpcs r).rpc.state ≡ false
    → has q (homa_rpc_free r s).active_rpcs ≡ (not (r == q) && has q s.active_rpcs)
unfolding homa_rpc_free
freed-active r q s alive =
    rw alive (
      ap (has q) (wake_interest-Same (s.rpcs r).interest (bury r s)).active_rpcs
      ∙ bury-active r q s)

freed-id :
    (r q : ℕ) (s : Hsk)
    → is_dead (s.rpcs r).rpc.state ≡ false
    → ((homa_rpc_free r s).rpcs q).rpc.id ≡ (s.rpcs q).rpc.id
unfolding homa_rpc_free
freed-id r q s alive =
    rw alive
      (ap (λ x. x.id) ((wake_interest-Same (s.rpcs r).interest (bury r s)).rpc q) ∙ bury-id r q s)

abbrev pub without : ℕ → Option ℕ → Option ℕ
without r none = none
without r (some q) = if r == q then none else some q

-- After an active RPC `r` was freed, `homa_find_client_rpc` finds for a client's id what it found before, but
-- for `r`, for which it finds nothing; and `homa_find_server_rpc` does not find `r`.
pub homa_rpc_free-hides :
    (next r id saddr server_id : ℕ) (s : Hsk)
    → Live next s
    → has r s.active_rpcs ≡ true
    → is_client id ≡ true
    → is_client server_id ≡ false
    → let s' = homa_rpc_free r s in
      (homa_find_client_rpc s' id ≡ without r (homa_find_client_rpc s id))
      × (homa_find_server_rpc s' saddr server_id ≢ some r)
homa_rpc_free-hides next r id saddr server_id s l active client server =
    (shown (homa_find_client_rpc s id) refl, λ e. unserved e)
  where
    s' : Hsk
    s' = homa_rpc_free r s

    l' : Live next s'
    l' = homa_rpc_free-Live next r s l

    alive : is_dead (s.rpcs r).rpc.state ≡ false
    alive = l.alive r active

    before :
        (q : ℕ)
        → homa_find_client_rpc s' id ≡ some q
        → (homa_find_client_rpc s id ≡ some q) × ((r == q) ≡ false)
    before q e =
        let there = (homa_find_client_rpc-finds next id q s' l' client).0 e in
        let ids = freed-id r q s alive in
        let was = freed-active r q s alive in
        (
          (homa_find_client_rpc-finds next id q s l client).1 (ground (arith, there, ids, was)),
          ground (arith, there, was),
        )

    hidden :
        homa_find_client_rpc s id ≡ some r
        → (o : Option ℕ) → homa_find_client_rpc s' id ≡ o
        → homa_find_client_rpc s' id ≡ none
    hidden e none h = h
    hidden e (some q) h =
        let (found, other) = before q h in
        let same : some r ≡ some q = sym e ∙ found in absurd (ground (arith, same, other))

    kept :
        homa_find_client_rpc s id ≢ some r
        → (o : Option ℕ) → homa_find_client_rpc s id ≡ o
        → (o' : Option ℕ) → homa_find_client_rpc s' id ≡ o'
        → homa_find_client_rpc s' id ≡ homa_find_client_rpc s id
    kept n none h none h' = h' ∙ sym h
    kept n none h (some q) h' = absurd (let both = sym h ∙ (before q h').0 in cc)
    kept n (some q) h o' h' = elim (Bool-cases (r == q)) [
      | inl same ↦ let e : r ≡ q = ground arith in absurd (n (h ∙ ap some (sym e)))
      | inr other ↦
          let there = (homa_find_client_rpc-finds next id q s l client).0 h in
          let ids = freed-id r q s alive in
          let is = freed-active r q s alive in
          (homa_find_client_rpc-finds next id q s' l' client).1
            (ground (arith, there, ids, is, other))
          ∙ sym h
    ]

    shown :
        (o : Option ℕ)
        → homa_find_client_rpc s id ≡ o
        → homa_find_client_rpc s' id ≡ without r (homa_find_client_rpc s id)
    shown none h =
        kept (λ e. absurd (let bad = sym h ∙ e in cc)) none h (homa_find_client_rpc s' id) refl
        ∙ h
        ∙ sym (ap (without r) h)
    shown (some q) h = elim (Bool-cases (r == q)) [
      | inl same ↦
          let e : r ≡ q = ground arith in
          hidden (h ∙ ap some (sym e)) (homa_find_client_rpc s' id) refl
          ∙ sym (ap (without r) h ∙ rw same refl)
      | inr other ↦
          kept (λ e. let bad = sym h ∙ e in ground (arith, bad, other)) (some q) h
            (homa_find_client_rpc s' id) refl
          ∙ h
          ∙ sym (ap (without r) h ∙ rw other refl)
    ]

    unserved : homa_find_server_rpc s' saddr server_id ≡ some r → ⊥
    unserved e =
        let there = (homa_find_server_rpc-finds next saddr server_id r s' l' server).0 e in
        ground (arith, there, freed-active r r s alive)
