-- ===== src/Lifecycle/Ends.antt =====
-- What `homa_rpc_free` does to each RPC.
use connected_homa.Prelude.{
  ℕ, ◌≡◌, refl, ap, subst, ◌∙◌, inl, inr, true, false, ◌==◌, arith, Bool-cases,
}
use connected_homa.Table.{Hsk, has}
use connected_homa.Lifecycle.{is_dead, bury, homa_rpc_free}
use connected_homa.Lifecycle.Free.{wake_interest-Same, bury-id, bury-active, bury-state, bury-dead}

pub homa_rpc_free-id : (r q : ℕ) (s : Hsk) → ((homa_rpc_free r s).rpcs q).rpc.id ≡ (s.rpcs q).rpc.id
unfolding homa_rpc_free
homa_rpc_free-id r q s = elim (Bool-cases (is_dead (s.rpcs r).rpc.state)) [
  | inl done ↦ rw done refl
  | inr alive ↦
      rw alive
        (ap (λ x. x.id) ((wake_interest-Same (s.rpcs r).interest (bury r s)).rpc q) ∙ bury-id r q s)
]

-- The RPC is dead, and so is what was dead.
pub homa_rpc_free-dead :
    (r q : ℕ) (s : Hsk)
    → ((r == q) ≡ true → is_dead ((homa_rpc_free r s).rpcs q).rpc.state ≡ true)
      × ((r == q) ≡ false
          → is_dead ((homa_rpc_free r s).rpcs q).rpc.state ≡ is_dead (s.rpcs q).rpc.state)
unfolding homa_rpc_free
homa_rpc_free-dead r q s = elim (Bool-cases (is_dead (s.rpcs r).rpc.state)) [
  | inl done ↦ (
    λ same.
        rw done
          (let e : r ≡ q = ground arith in subst (λ x. is_dead (s.rpcs x).rpc.state ≡ true) e done),
    λ other. rw done refl,
  )
  | inr alive ↦
      let woken =
        ap (λ x. is_dead x.state) ((wake_interest-Same (s.rpcs r).interest (bury r s)).rpc q) in
      (
        λ same. rw alive (woken ∙ bury-dead r q s same),
        λ other. rw alive (woken ∙ bury-state r q s other),
      )
]

pub homa_rpc_free-active :
    (r q : ℕ) (s : Hsk) → has q (homa_rpc_free r s).active_rpcs ≡ true → has q s.active_rpcs ≡ true
unfolding homa_rpc_free
homa_rpc_free-active r q s = elim (Bool-cases (is_dead (s.rpcs r).rpc.state)) [
  | inl done ↦ rw done (λ h. h)
  | inr alive ↦
      let woken = ap (has q) (wake_interest-Same (s.rpcs r).interest (bury r s)).active_rpcs in
      rw alive (λ h. ground (arith, h, woken, bury-active r q s))
]
