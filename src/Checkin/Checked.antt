-- ===== src/Checkin/Checked.antt =====
-- What holds of a coin when `runCheckIn` of sdk/src/orchestrate.ts goes on to its first transaction.
use offline_bearer_protocol.Buffer.{Buffer, equals}
use offline_bearer_protocol.Buffer.Cuts.{equals_iff}
use offline_bearer_protocol.Chain.{verify_coin_chain}
use offline_bearer_protocol.Chain.Accepts.{verify_coin-IsChain_iff}
use offline_bearer_protocol.Chain.Valid.{IsChain}
use offline_bearer_protocol.Chain.Verified.{Anchored}
use offline_bearer_protocol.Checkin.{
  Prepared, present, prepare, bond_of, registry_active, registry_spent,
}
use offline_bearer_protocol.Coin.{Curve, item, current_owner}
use offline_bearer_protocol.Coinfile.{CoinCore}
use offline_bearer_protocol.Constants.SigScheme.{ed25519}
use offline_bearer_protocol.Errors.{Error}
use offline_bearer_protocol.Layout.{state_hash}
use offline_bearer_protocol.Prelude.{
  ◌≡◌, sym, ap, ◌∙◌, Option, none, some, Result, ok, ok-injective, >>=-eq-ok, guard-eq-ok,
  throw_if-eq-ok, ◌==◌, ==_iff, length,
}
use offline_bearer_protocol.Readers.{OnChainConfig, OnChainRegistry}
use offline_bearer_protocol.Solana.{PublicKey}

present-eq-ok : {A : Type 0} (x : Option A) (e : Error) {a : A} → present x e ≡ ok a → x ≡ some a
unfolding present
present-eq-ok none e h = cc
present-eq-ok (some x) e h = cc

state_hash-eq-ok :
    (sha256 : Buffer → Buffer) (s : Buffer) {h : Buffer} → state_hash sha256 s ≡ ok h → sha256 s ≡ h
unfolding state_hash
state_hash-eq-ok sha256 s e = ok-injective (guard-eq-ok (length s == 104) _ _ e).1

-- The coin is of scheme Ed25519, its chain is valid, it begins at the state that the registry is
-- anchored at, and the registry is active and of the recipient.
pub record IsReady (sha256 : Buffer → Buffer) (curve : Curve) (coin : CoinCore)
    (recipient : PublicKey) (cfg : OnChainConfig) (reg : OnChainRegistry) (p : Prepared)
    : Type 0 where
  pub scheme : coin.sig_scheme ≡ ed25519
  pub chain : IsChain sha256 curve coin
  pub anchored : Anchored sha256 (some reg.genesis_state_hash) coin
  pub active : reg.status ≡ registry_active
  pub same_recipient : reg.recipient ≡ recipient
  pub owner : current_owner coin ≡ ok p.final_owner
  pub bond : p.bond ≡ bond_of reg.value cfg.bond_multiplier_bps

-- When the checks of `runCheckIn` pass on a configuration and a registry that were read, the coin
-- is of scheme Ed25519, its chain is valid, it begins at the state that the registry is anchored
-- at, the registry is active and names the recipient, and the final owner and the bond are the
-- coin's holder and the registry's value times the bond multiplier over 10000.
pub prepare-IsReady :
    (sha256 : Buffer → Buffer) (curve : Curve) (coin : CoinCore) (recipient : PublicKey)
    (cfg : OnChainConfig) (reg : OnChainRegistry) (p : Prepared)
    → prepare sha256 curve coin recipient (some cfg) (some reg) ≡ ok p
    → IsReady sha256 curve coin recipient cfg reg p
unfolding prepare present
prepare-IsReady sha256 curve coin recipient cfg reg p e =
    let (e1, f1) = guard-eq-ok (coin.sig_scheme == ed25519) _ _ e in
    let (chain, e2, f2) = >>=-eq-ok (verify_coin_chain sha256 curve coin none) _ f1 in
    let (e3, f3) = guard-eq-ok chain.is_ok _ _ f2 in
    let (final_owner, e4, f4) = >>=-eq-ok (current_owner coin) _ f3 in
    let (e5, f5) = throw_if-eq-ok (reg.status == registry_spent) _ _ f4 in
    let (e6, f6) = guard-eq-ok (reg.status == registry_active) _ _ f5 in
    let (e7, f7) = guard-eq-ok (equals reg.recipient recipient) _ _ f6 in
    let (first, e8, f8) = >>=-eq-ok (item coin.states 0) _ f7 in
    let (h, e9, f9) = >>=-eq-ok (state_hash sha256 first) _ f8 in
    let (e10, f10) = guard-eq-ok (equals h reg.genesis_state_hash) _ _ f9 in
    let scheme = (==_iff coin.sig_scheme ed25519).0 e1 in
    let same : ◌≡◌ {A = Prepared}
        (record { final_owner = final_owner; bond = bond_of reg.value cfg.bond_multiplier_bps }) p =
      ok-injective {E = Error} f10 in
    record {
      scheme = scheme;
      chain = ((verify_coin-IsChain_iff sha256 curve coin scheme none).0 (chain, e2, e3)).0;
      anchored = (first, e8, state_hash-eq-ok sha256 first e9 ∙ (equals_iff _ _).0 e10);
      active = (==_iff _ _).0 e6;
      same_recipient = (equals_iff _ _).0 e7;
      owner = e4 ∙ ap (λ (x : Prepared). let r : Result Error Buffer = ok x.final_owner in r) same;
      bond = sym (ap (λ (x : Prepared). x.bond) same);
    }
