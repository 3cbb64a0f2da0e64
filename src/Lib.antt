-- ===== src/Lib.antt =====
-- Offline bearer protocol: coins as signed chains of states, handed on offline and checked in
-- on-chain.
--
-- The SDK (sdk/src) keeps a coin as its states of 104 bytes and a signature for each transfer.
-- A coin is made for its mint recipient, handed on by its holder, verified by who receives it,
-- stored as a coin file, plain or encrypted, and checked in with instructions to the program
-- (programs/obp-core), which holds the same states. The files, and the code that each models:
--
--   Prelude, Errors     shared notation, lists, results; the errors that the SDK throws
--   Buffer              Node's Buffer as far as the SDK uses it: a list of bytes
--   Constants           sdk/src/constants.ts
--   Layout              sdk/src/layout.ts: encodeState, decodeState, genesisState, nextState
--   Coin                sdk/src/coin.ts and chain-internal.ts: newCoin, appendLink, currentOwner
--   Chain               sdk/src/chain.ts: verifyCoinChain, verifyCoinChainAsync
--   Coinfile, Wrapper   sdk/src/coinfile.ts and wrapper.ts: the coin file, plain and encrypted
--   Solana, Accounts    sdk/src/accounts.ts, over the network libraries as a record of parameters
--   Precompile          sdk/src/precompile.ts: ed25519VerifyIx
--   Instructions        sdk/src/instructions.ts: the builders, and in Append the pair that
--                       appends links
--   Readers             sdk/src/readers.ts: the parsers of accounts, and in Fetch the reads
--   Client              sdk/src/client.ts: ObpClient.send
--   Checkin             sdk/src/orchestrate.ts: what runCheckIn checks, the batches it appends, its
--                       steps and its wait
--   Pq                  sdk/src/pq.ts: the length checks in front of mldsa-wasm
--   Scripts             sdk/scripts/e2e-matrix.ts and others, smoke-m1-run.ts: what they compute
--   Program             programs/obp-core/src. State and Accounts are state.rs; Checks, Start, Append,
--                       Finalize and Settle are instructions/checkin.rs, each handler with Anchor's
--                       checks of its accounts; Mint, Vault and Init are the other instructions. Context
--                       is what an instruction on one coin sees, World all accounts with the steps on
--                       them. Dispute says what becomes of a coin apart from the code, History what
--                       its chain is, Outcome what the end of a check-in leaves and pays; Handled and
--                       World/Sound connect them to the handlers.
--   Tests               runs of all of these on concrete data
--
-- A function of the source has its name in snake case here; a `throw` is the result `err`, with a
-- constructor of Errors for each message. Numbers are natural numbers: a buffer write checks the
-- width as Node does. A promise is its value. Public keys are their 32 bytes.
--
-- Parameters: sha256 (its digests have 32 bytes), the ed25519 functions, AES-256-GCM (what it
-- sealed, it opens), the ML-DSA verifier, and the calls of the Solana libraries. The loops that
-- retry a call run on fuel: six for a read, the number of retries for a send, and for the wait one
-- round for every three seconds and two more. The theorems on them say that this is enough.
--
-- For the program, the token program is a record of functions on a state of its own, with the laws
-- that only the owner or a delegate of an account can take from it, and no more than the amount of
-- the transfer; addresses that are derived are a record of functions. No submission's address is
-- the vault's, and the vault approves no delegate. The accounts of a coin stand together under its
-- serial, in a list; an account that Anchor has not made yet is absent. Arithmetic of 64 bits that
-- overflows is an error, as the release profile of Cargo.toml has it.
--
-- Not modelled: the waits between retries and the log; the order of the client's steps over a changing
-- network; key generation; rent and lamports, close_instance, ping and the data accounts for long
-- signatures (admin.rs, pq.rs); what the scripts send and print, in which order.

pub mod Prelude
pub mod Errors
pub mod Buffer
pub mod Constants
pub mod Layout
pub mod Program
pub mod Coinfile
pub mod Coin
pub mod Chain
pub mod Wrapper
pub mod Solana
pub mod Accounts
pub mod Precompile
pub mod Instructions
pub mod Readers
pub mod Client
pub mod Checkin
pub mod Pq
pub mod Scripts
pub mod Tests
