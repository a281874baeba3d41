-- ===== src/Channel/Race/Alone.antt =====
-- A client of src/channel.rs that nobody disturbs: its accesses in a row are `claim_and_connect`.
use shmem_ipc.Base.{ℕ, zero, suc, ◌≡◌, refl, ◌==◌, inl, inr, Bool-cases}
use shmem_ipc.Error.{Result, ok, err}
use shmem_ipc.Header.{client_claimed, as_u32}
use shmem_ipc.Platform.{ProcessIdentity}
use shmem_ipc.Shared.State.{Mapping}
use shmem_ipc.Channel.{Met, claim_and_connect}
use shmem_ipc.Channel.Race.{ClientPc, compare_claim, joined, refused, client_step}

unfoldable pub client_steps : ProcessIdentity → ℕ → ClientPc → Mapping → ClientPc × Mapping
unfolding client_step
client_steps identity zero pc m = (pc, m)
client_steps identity (suc n) pc m =
    let (pc', m') = client_step identity (ok tt) pc m in client_steps identity n pc' m'

unfoldable pub returned : Result (Unit {0}) → ClientPc
returned (ok _) = joined
returned (err e) = refused e

-- From its first `compare_exchange` on, a client that nobody disturbs needs five accesses, and ends
-- with the result and with the mapping that `claim_and_connect` computes.
pub claim_alone :
    (identity : ProcessIdentity) (at_load : ℕ) (m : Mapping)
    → let met : Met = record {
      at_load = at_load;
      at_claim = m.global.state;
      at_connect = as_u32 client_claimed;
    } in
      let (result, m') = claim_and_connect identity met m in
      client_steps identity 5 compare_claim m ≡ (returned result, m')
unfolding client_steps client_step claim_and_connect returned
claim_alone identity at_load m = elim (Bool-cases (m.global.state == 1)) [
  | inl ready ↦ rw ready refl
  | inr other ↦ rw other refl
]
