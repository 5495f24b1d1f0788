-- ===== src/Portal/Hub/Account.antt =====
-- The gated account operations: `AccountStatus`, `Login`, `Register`, `Me`.
use torrent_tv.Prelude.{◌≡◌, ◌≢◌, true, false, ◌∷◌, arith}
use torrent_tv.Portal.Hub.{
  unavailable, accounts_unavailable, Reply, ok, fail, Hub, HubState, snapshot, refused, called,
  account_call,
}

abbrev pub closed_state : HubState → HubState
closed_state s = record s { accounts_enabled = false; donor = false; donor_until = 0 }

-- Behind a closed gate the client is not called and the hub stays. Behind an open one the client's
-- answer comes back, and the hub stays on a success, on rejected credentials and on every failure
-- other than an outage; an outage closes the gate and drops the donor status, sends the new
-- snapshot, and leaves the rest of the state, and every later operation is refused.
pub account_call_branches {ℓ κ} :
    {A : Type ℓ} {B : Type κ} (answer : Reply A) (later : Reply B) (h : Hub)
    → (h.state.accounts_enabled ≡ false → account_call answer h ≡ (h, refused accounts_unavailable))
      × (h.state.accounts_enabled ≡ true
          → answer ≢ fail unavailable
          → account_call answer h ≡ (h, called answer))
      × (h.state.accounts_enabled ≡ true
          → answer ≡ fail unavailable
          → let r = account_call answer h in
            (r.1 ≡ called answer)
            × (r.0.state ≡ closed_state h.state)
            × (r.0.sent ≡ snapshot (record h { state = closed_state h.state }) ∷ h.sent)
            × (account_call later r.0 ≡ (r.0, refused accounts_unavailable)))
unfolding account_call
account_call_branches (ok a) later h =
    ((λ shut. ground arith), (λ on. λ ne. ground arith), (λ on. λ e. cc))
account_call_branches (fail e') later h =
    ((λ shut. ground arith), (λ on. λ ne. ground arith), (λ on. λ e. ground arith))
