-- ===== src/Receive/Identity.antt =====
-- Packets of a message change neither the id nor the port of the RPC, and do not end it.
use connected_homa.Prelude.{ℕ, ◌≡◌, refl, ◌∙◌, inl, inr, Bool, Option, none, some, ◌==◌, Bool-cases}
use connected_homa.Rpc.{MessageIn, Rpc, State, outgoing, incoming, in_service, dead, is_client}
use connected_homa.Buffers.Queue.{Moment}
use connected_homa.Lifecycle.{is_dead}
use connected_homa.Receive.{DataPacket, Surroundings, admit, store, homa_data_pkt}

pub record Stays (rpc rpc' : Rpc) : Type 0 where
  pub id : rpc'.id ≡ rpc.id
  pub dport : rpc'.dport ≡ rpc.dport
  pub ends : is_dead rpc'.state ≡ is_dead rpc.state

pub Stays-refl : (rpc : Rpc) → Stays rpc rpc
Stays-refl rpc = record { id = refl; dport = refl; ends = refl }

admit-Stays :
    (t : Moment) (h : DataPacket) (rpc : Rpc) (st : State) (w : Surroundings)
    → Stays (record rpc { state = st }) (admit t h (record rpc { state = st }) w).0
unfolding admit
admit-Stays t h rpc incoming w = Stays-refl (record rpc { state = incoming })
admit-Stays t h rpc in_service w = Stays-refl (record rpc { state = in_service })
admit-Stays t h rpc dead w = Stays-refl (record rpc { state = dead })
admit-Stays t h rpc outgoing w = elim (Bool-cases (is_client rpc.id)) [
  | inl client ↦ rw client (record { id = refl; dport = refl; ends = refl })
  | inr server ↦ rw server (Stays-refl (record rpc { state = outgoing }))
]

store-Stays :
    (memory : Bool) (now version jiffies : ℕ) (h : DataPacket) (rpc : Rpc) (mi : Option MessageIn)
    (w : Surroundings)
    → let r = record rpc { msgin = mi } in Stays r (store memory now version jiffies h r w).0
unfolding store
store-Stays memory now version jiffies h rpc none w = Stays-refl (record rpc { msgin = none })
store-Stays memory now version jiffies h rpc (some m) w = elim (Bool-cases (m.num_bpages == 0)) [
  | inl empty ↦ rw empty (Stays-refl (record rpc { msgin = some m }))
  | inr room ↦ rw room (record { id = refl; dport = refl; ends = refl })
]

Stays-trans : (a b c : Rpc) → Stays a b → Stays b c → Stays a c
Stays-trans a b c p q = record {
  id = q.id ∙ p.id;
  dport = q.dport ∙ p.dport;
  ends = q.ends ∙ p.ends;
}

pub homa_data_pkt-Stays :
    (t : Moment) (memory : Bool) (version jiffies : ℕ) (h : DataPacket) (rpc : Rpc)
    (w : Surroundings)
    → Stays rpc (homa_data_pkt t memory version jiffies h rpc w).0
unfolding homa_data_pkt
homa_data_pkt-Stays t memory version jiffies h rpc w =
    let r = admit t h rpc w in
    let admitted = admit-Stays t h rpc rpc.state w in
    elim (Bool-cases r.2) [
      | inl goes_on ↦ rw goes_on (
          Stays-trans rpc r.0 (store memory t.now version jiffies h r.0 r.1).0 admitted
            (store-Stays memory t.now version jiffies h r.0 r.0.msgin r.1))
      | inr discarded ↦ rw discarded admitted
    ]
