-- ===== src/Table.antt =====
-- homa_rpc.c and homa_sock.h: the RPCs of a socket in memory, and the hash tables through which a packet
-- finds its RPC. An RPC and an interest are numbers, which stand for their addresses. The locks are held
-- where the code holds them, so that each operation is one step.
pub mod Refs
pub mod Sample
use connected_homa.Prelude.{
  ℕ, ◌+◌, ◌/◌, ◌%◌, Bool, true, false, not, ◌&&◌, ◌||◌, Option, none, some, List, [], ◌∷◌, ◌==◌,
  if◌then◌else◌,
}
use connected_homa.Prelude.Int.{ℤ}
use connected_homa.Rpc.{Rpc}
use connected_homa.Buffers.{Buffers}

-- A `struct homa_rpc`: `peer` is the address of its peer; of its flags RPC_PKTS_READY and
-- RPC_HANDING_OFF.
pub record Entry : Type 0 where
  pub rpc : Rpc
  pub peer : ℕ
  pub interest : Option ℕ
  pub pkts_ready : Bool
  pub handing_off : Bool

-- `struct homa_interest`
pub record Interest : Type 0 where
  pub core : ℕ
  pub ready_rpc : Option ℕ
  pub reg_rpc : Option ℕ
  pub locked : Bool

-- `struct homa_sock`, with the memory of its RPCs and of the interests of its threads; `woken` are the
-- threads that were woken, by their interests, and `data_ready` counts calls of `sk_data_ready`.
pub record Hsk : Type 0 where
  pub shutdown : Bool
  pub rpcs : ℕ → Entry
  pub interests : ℕ → Interest
  pub client_rpc_buckets : ℕ → List ℕ
  pub server_rpc_buckets : ℕ → List ℕ
  pub active_rpcs : List ℕ
  pub dead_rpcs : List ℕ
  pub ready_requests : List ℕ
  pub ready_responses : List ℕ
  pub request_interests : List ℕ
  pub response_interests : List ℕ
  pub dead_skbs : ℤ
  pub buffers : Buffers
  pub woken : List ℕ
  pub data_ready : ℕ

-- `homa_client_rpc_bucket` and `homa_server_rpc_bucket`: which bucket it is.
abbrev pub bucket_of : ℕ → ℕ
bucket_of id = id / 2 % 1024

-- Unlinking an entry, which stands in a list at most once.
abbrev pub remove : ℕ → List ℕ → List ℕ
remove r [] = []
remove r (q ∷ qs) = let rest = remove r qs in if q == r then rest else q ∷ rest

abbrev pub has : ℕ → List ℕ → Bool
has r [] = false
has r (q ∷ qs) = q == r || has r qs

-- `hlist_for_each_entry_rcu` with a test that returns.
abbrev pub first_with : (Entry → Bool) → (ℕ → Entry) → List ℕ → Option ℕ
first_with test rpcs [] = none
first_with test rpcs (r ∷ rs) = if test (rpcs r) then some r else first_with test rpcs rs

abbrev pub is_rpc : ℕ → Entry → Bool
is_rpc id e = e.rpc.id == id

abbrev pub is_call : ℕ → ℕ → Entry → Bool
is_call saddr id e = e.rpc.id == id && e.peer == saddr

-- `homa_find_client_rpc`
unfoldable pub homa_find_client_rpc : Hsk → ℕ → Option ℕ
homa_find_client_rpc s id = first_with (is_rpc id) s.rpcs (s.client_rpc_buckets (bucket_of id))

-- `homa_find_server_rpc`
unfoldable pub homa_find_server_rpc : Hsk → ℕ → ℕ → Option ℕ
homa_find_server_rpc s saddr id =
    first_with (is_call saddr id) s.rpcs (s.server_rpc_buckets (bucket_of id))

-- The error codes that the operations on RPCs return; `peer_failed` is what `homa_peer_find` returned.
pub data Errno : Type 0 where
  enomem eshutdown einval : Errno
  peer_failed : ℕ → Errno
