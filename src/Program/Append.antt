-- ===== src/Program/Append.antt =====
-- programs/obp-core/src/instructions/checkin.rs: `append_links`. Of a link's signature only the
-- commitment is stored.
pub mod Grows
pub mod Unsigned
use offline_bearer_protocol.Buffer.{Buffer, alloc, equals}
use offline_bearer_protocol.Instructions.Append.{Link}
use offline_bearer_protocol.Prelude.{
  ℕ, ◌+◌, List, [], ◌∷◌, drop, length, set, Option, some, Bool, Result, ok, err, guard, throw_if,
  some_or, ◌>>=◌, ◌>>◌, leb, ◌==◌, if◌then◌else◌,
}
use offline_bearer_protocol.Program.Accounts.{MintRegistry, Submission}
use offline_bearer_protocol.Program.Checks.{last_state, check_link, sig_commit_hash}
use offline_bearer_protocol.Program.Context.{Context, submission_of, put_submission}
use offline_bearer_protocol.Program.Errors
use offline_bearer_protocol.Program.Errors.{Failure, obp, account_error}
use offline_bearer_protocol.Program.State.{state_hash, parse_owner}
use offline_bearer_protocol.Program.Status.{receiving}
use offline_bearer_protocol.Program.Words.{add_word}

abbrev pub max_submission_states : ℕ
max_submission_states = 4

module _ (hash : Buffer → Buffer) where
  unfoldable pub check_sig_format : ℕ → Buffer → Result Failure (Unit {0})
  check_sig_format sig_scheme sig =
      if sig_scheme == 1
      then guard (equals (drop 32 sig) (alloc 32)) (obp Errors.sig_commit_format)
      else ok tt

  -- The loop over the links, from index `i` of the submission on, with the state before; it leaves
  -- the submission and the last state.
  unfoldable pub add_links :
      ℕ → MintRegistry → ℕ → Buffer → List Link → Submission → Result Failure (Submission × Buffer)
  unfolding check_link check_sig_format sig_commit_hash
  add_links sig_scheme registry i prev [] sub = ok (sub, prev)
  add_links sig_scheme registry i prev (link ∷ links) sub = do
    check_link hash registry prev link.state
    check_sig_format sig_scheme link.sig
    let next = record sub {
      sig_commits = set sub.sig_commits i (sig_commit_hash hash link.sig);
      states = set sub.states i link.state;
    }
    add_links sig_scheme registry (i + 1) link.state links next

  -- The handler, on the submission's account.
  unfoldable pub extend :
      ℕ
      → ℕ
      → MintRegistry
      → Buffer
      → Buffer
      → List Link
      → Buffer
      → Submission
      → Result Failure Submission
  unfolding last_state add_links add_word state_hash parse_owner
  extend sig_scheme max_links registry serial head_owner links last_hash sub = do
    guard (equals serial sub.serial) (obp Errors.submission_mismatch)
    throw_if (length links == 0) (obp Errors.empty_links)
    guard (leb (length links) max_links) (obp Errors.max_links_exceeded)
    guard (leb (sub.states_len + length links) max_submission_states) (obp Errors.states_full)
    guard (leb 1 sub.states_len) (obp Errors.status_invalid)
    prev ← last_state sub
    guard (equals (parse_owner prev) head_owner) (obp Errors.owner_anchor_mismatch)
    (added, last) ← add_links sig_scheme registry sub.states_len prev links sub
    guard (equals (state_hash hash last) last_hash) (obp Errors.last_hash_mismatch)
    count ← add_word 16 sub.links_count (length links)
    let longer = record added { states_len = sub.states_len + length links; links_count = count }
    final ← last_state longer
    ok (record longer { final_owner = parse_owner final })

  module _ {Tokens : Type 0} where
    unfoldable pub append_links :
        Buffer → ℕ → Buffer → List Link → Buffer → Context Tokens → Result Failure (Context Tokens)
    unfolding extend submission_of put_submission
    append_links serial attempt head_owner links last_hash ctx = do
      guard (leb ctx.config.sig_scheme 1) (obp Errors.sig_scheme_unsupported)
      sub ← some_or (submission_of ctx.coin attempt) account_error
      guard (sub.status == receiving) (obp Errors.status_invalid)
      longer ←
          extend ctx.config.sig_scheme ctx.config.max_links_per_tx ctx.coin.registry serial
            head_owner links last_hash sub
      ok (record ctx { coin = put_submission ctx.coin attempt longer })
