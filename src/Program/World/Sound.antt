-- ===== src/Program/World/Sound.antt =====
-- What holds of all accounts of programs/obp-core, whatever its instructions do.
use offline_bearer_protocol.Buffer.{Buffer}
use offline_bearer_protocol.Prelude.{
  ℕ, ◌+◌, ◌≤◌, ◌≡◌, ◌≢◌, sym, ◌∙◌, some, if◌then◌else◌, ◌==◌, ==_iff, ne→==-false, All, arith,
}
use offline_bearer_protocol.Program.Accounts.{MintRegistry}
use offline_bearer_protocol.Program.Backing.{IsVault, LosesAtMost}
use offline_bearer_protocol.Program.Context.{Context, CoinAccounts, submission_of}
use offline_bearer_protocol.Program.Dispute.{
  Phase, Next, InPhase, is_undecided, is_held, is_paid, IsStored,
}
use offline_bearer_protocol.Program.Dispute.Refines.{CoinMove-Next, CoinMove-IsStored}
use offline_bearer_protocol.Program.Handled.{Handled, IsPayment, no_payment, pays_coin, rebump}
use offline_bearer_protocol.Program.Handled.Started.{start_check_in-Handled}
use offline_bearer_protocol.Program.Handled.Appended.{append_links-Handled}
use offline_bearer_protocol.Program.Handled.Decided.{finalize_check_in-Handled}
use offline_bearer_protocol.Program.Handled.Settled.{settle-Handled}
use offline_bearer_protocol.Program.Mint.{World, find_coin}
use offline_bearer_protocol.Program.Status.{spent}
use offline_bearer_protocol.Program.Tokens.{TokenProgram, TokenAccount, Addresses, IsTokenProgram}
use offline_bearer_protocol.Program.World.{
  context_of, world_after, Acts, starts, appends, finalizes, settles,
}
use offline_bearer_protocol.Program.World.Coins.{
  worth, outstanding, find_coin-serial, find_coin-All, replace_coin-All, replace_coin-outstanding,
}

-- The coin's accounts show a phase of its dispute, and its submissions hold genuine chains.
pub record IsGood (hash : Buffer → Buffer) (c : CoinAccounts) : Type 0 where
  pub phase : Phase
  pub in_phase : InPhase c phase
  pub stored : IsStored hash c

-- The supply is covered by one account of the vault, in one mint.
pub data IsBacked {Tokens : Type 0} (spl : TokenProgram Tokens) (at : Addresses) (mint : Buffer)
    (tokens : Tokens) (supply : ℕ) : Type 0 where
  nothing_minted : supply ≡ 0 → IsBacked spl at mint tokens supply
  covered :
      (key : Buffer) (a : TokenAccount)
      → spl.account tokens key ≡ some a
      → IsVault at a
      → a.mint ≡ mint
      → supply ≤ a.amount
      → IsBacked spl at mint tokens supply

pub record IsSound {Tokens : Type 0} (hash : Buffer → Buffer) (spl : TokenProgram Tokens)
    (at : Addresses) (w : World Tokens) : Type 0 where
  pub coins : All (IsGood hash) w.coins
  pub supply : w.config.total_unspent_supply ≡ outstanding w.coins
  pub backed : IsBacked spl at w.config.vault_mint w.tokens w.config.total_unspent_supply

-- The bump of the head shows in no phase.
rebump-InPhase : (c : CoinAccounts) (bump : ℕ) (p : Phase) → InPhase c p → InPhase (rebump c bump) p
unfolding submission_of
rebump-InPhase c bump _ (is_undecided st unset all) = is_undecided st unset all
rebump-InPhase c bump _ (is_held a st set at l) =
    is_held a st set at (record {
      leader = l.leader;
      stored = l.stored;
      has_status = l.has_status;
      others = l.others;
    })
rebump-InPhase c bump _ (is_paid a st set at l) =
    is_paid a st set at (record {
      leader = l.leader;
      stored = l.stored;
      has_status = l.has_status;
      others = l.others;
    })

-- What is paid is what the coin is worth less.
IsPayment-worth :
    (r r' : MintRegistry) (amount : ℕ) → IsPayment r r' amount → worth r' + amount ≡ worth r
unfolding worth
IsPayment-worth r r' _ (no_payment st v) =
    rw (st, v, plus_zero (if r.status == spent then 0 else r.value))
  where
    plus_zero : (n : ℕ) → n + 0 ≡ n
    plus_zero n = omega arith
IsPayment-worth r r' _ (pays_coin live sp v) =
    let t = (==_iff r'.status spent).1 sp in
    let f = ne→==-false r.status spent live in
    let z : 0 + r.value ≡ r.value = omega arith in rw (t, f, z)

module _ {Tokens : Type 0} (hash : Buffer → Buffer) (spl : TokenProgram Tokens)
    (at : Addresses) where
  pub loses-IsBacked :
      (mint mint' : Buffer) (t t' : Tokens) (supply amount left : ℕ)
      → mint' ≡ mint
      → IsBacked spl at mint t supply
      → LosesAtMost spl at amount t t'
      → left + amount ≡ supply
      → IsBacked spl at mint' t' left
  loses-IsBacked mint mint' t t' supply amount left same (nothing_minted z) loss e =
      nothing_minted (omega arith)
  loses-IsBacked mint mint' t t' supply amount left same (covered key a f v at_mint le) loss e =
      let (b, g, w, m, kept) = loss key a f v in
      covered key b g w (m ∙ at_mint ∙ sym same) (omega arith)

  Handled-Next :
      (ctx ctx' : Context Tokens) (p : Phase) (h : Handled hash spl at ctx ctx')
      → InPhase ctx.coin p
      → (q : Phase) × InPhase ctx'.coin q × Next (rebump ctx.coin h.bump) p q
  Handled-Next ctx ctx' p h at_p =
      CoinMove-Next hash (rebump ctx.coin h.bump) ctx'.coin p
        (rebump-InPhase ctx.coin h.bump p at_p) h.moved

  Handled-IsGood :
      (ctx ctx' : Context Tokens)
      → Handled hash spl at ctx ctx'
      → IsGood hash ctx.coin
      → IsGood hash ctx'.coin
  unfolding submission_of
  Handled-IsGood ctx ctx' h g =
      let base = rebump ctx.coin h.bump in
      let stored : IsStored hash base = record {
        attempts = g.stored.attempts;
        genuine = g.stored.genuine;
      } in
      let (q, at_q, next) = Handled-Next ctx ctx' g.phase h g.in_phase in
      record {
        phase = q;
        in_phase = at_q;
        stored = CoinMove-IsStored hash base ctx'.coin stored h.moved;
      }

  module _ (law : IsTokenProgram spl)
      (apart : (serial : Buffer) (attempt : ℕ) → at.sub_pda serial attempt ≢ at.vault_pda) where
    Acts-Handled :
        (serial : Buffer) (ctx ctx' : Context Tokens)
        → ctx.coin.registry.serial ≡ serial
        → IsStored hash ctx.coin
        → Acts hash spl at serial ctx ctx'
        → Handled hash spl at ctx ctx'
    Acts-Handled serial ctx ctx' here stored
          (starts attempt state_0 checker checker_token escrow away e) =
        start_check_in-Handled hash spl at law serial attempt state_0 checker checker_token escrow
          ctx here away ctx' e
    Acts-Handled serial ctx ctx' here stored (appends attempt head_owner links last_hash e) =
        append_links-Handled hash spl at serial attempt head_owner links last_hash ctx ctx' e
    Acts-Handled serial ctx ctx' here stored (finalizes attempt other_attempt recipient keys e) =
        finalize_check_in-Handled hash spl at law apart serial attempt other_attempt recipient keys
          ctx stored ctx' e
    Acts-Handled serial ctx ctx' here stored (settles attempt other_attempt recipient keys e) =
        settle-Handled hash spl at law apart serial attempt other_attempt recipient keys ctx ctx' e

    pub on_coin-IsSound :
        (w : World Tokens) (serial : Buffer) (c : CoinAccounts) (ctx' : Context Tokens)
        → IsSound hash spl at w
        → find_coin serial w.coins ≡ some c
        → Acts hash spl at serial (context_of w c) ctx'
        → IsSound hash spl at (world_after w serial ctx')
    on_coin-IsSound w serial c ctx' s found acts =
        let good = find_coin-All serial (IsGood hash) w.coins s.coins found in
        let h =
          Acts-Handled serial (context_of w c) ctx' (find_coin-serial serial w.coins found)
            good.stored acts in
        let balance = replace_coin-outstanding serial w.coins c ctx'.coin found in
        let less = IsPayment-worth c.registry ctx'.coin.registry h.amount h.payment in
        let drop = h.supply in
        let before = s.supply in
        record {
          coins =
              replace_coin-All serial (IsGood hash) w.coins ctx'.coin s.coins
                (Handled-IsGood (context_of w c) ctx' h good);
          supply = omega arith;
          backed =
              loses-IsBacked w.config.vault_mint ctx'.config.vault_mint w.tokens ctx'.tokens
                w.config.total_unspent_supply h.amount ctx'.config.total_unspent_supply h.same_mint
                s.backed h.loss drop;
        }
