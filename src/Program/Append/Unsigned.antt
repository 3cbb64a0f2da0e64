-- ===== src/Program/Append/Unsigned.antt =====
-- What `append_links` of programs/obp-core/src/instructions/checkin.rs makes of the signatures of
-- Ed25519.
use offline_bearer_protocol.Buffer.{Buffer, equals}
use offline_bearer_protocol.Instructions.Append.{Link}
use offline_bearer_protocol.Prelude.{
  ℕ, suc, >>=-eq-ok, Ensures-ok, Ensures-bind, Ensures-guard, Ensures-throw_if, ◌+◌, ◌≡◌, refl, ap,
  ◌∙◌, List, [], ◌∷◌, length, set, Result, ok, ◌>>◌, leb, ◌==◌, ok-injective,
}
use offline_bearer_protocol.Program.Accounts.{MintRegistry, Submission}
use offline_bearer_protocol.Program.Append.{
  add_links, check_sig_format, extend, max_submission_states,
}
use offline_bearer_protocol.Program.Checks.{check_link, last_state, sig_commit_hash}
use offline_bearer_protocol.Program.Errors.{Failure}
use offline_bearer_protocol.Program.State.{state_hash, parse_owner}
use offline_bearer_protocol.Program.Words.{add_word}

after_ok :
    {E B : Type 0} {r : Result E (Unit {0})} {done : Unit {0}} {m : Result E B}
    → r ≡ ok done
    → (r >> m) ≡ m
after_ok e = rw e

-- The links with other signatures.
abbrev pub resign : (Buffer → Buffer) → List Link → List Link
resign other [] = []
resign other (link ∷ links) = record link { sig = other link.sig } ∷ resign other links

length-resign :
    (other : Buffer → Buffer) (links : List Link) → length (resign other links) ≡ length links
length-resign other [] = refl
length-resign other (link ∷ links) = ap suc (length-resign other links)

module _ (hash : Buffer → Buffer) (other : Buffer → Buffer) where
  add_links-resign :
      (registry : MintRegistry) (i : ℕ) (prev : Buffer) (links : List Link) (sub : Submission)
      (commits : List Buffer) {added : Submission} {last : Buffer}
      → add_links hash 0 registry i prev links sub ≡ ok (added, last)
      → (c : List Buffer) × (add_links hash 0 registry i prev
            (resign other links)
            (record sub { sig_commits = commits })
          ≡ ok (record added { sig_commits = c }, last))
  unfolding add_links check_sig_format
  add_links-resign registry i prev [] sub commits {added} {last} e =
      let pair : ◌≡◌ {A = Submission × Buffer} (sub, prev) (added, last) =
        ok-injective {E = Failure} e in
      (
        commits,
        ap
            (λ (p : Submission × Buffer).
              let r : Result Failure (Submission × Buffer) =
                ok (record p.0 { sig_commits = commits }, p.1) in
              r)
            pair,
      )
  add_links-resign registry i prev (link ∷ links) sub commits e =
      let (done, e1, e2) = >>=-eq-ok (check_link hash registry prev link.state) _ e in
      let next = record sub {
        sig_commits = set sub.sig_commits i (sig_commit_hash hash link.sig);
        states = set sub.states i link.state;
      } in
      let (c, rest) =
        add_links-resign registry (i + 1) link.state links next
          (set commits i (sig_commit_hash hash (other link.sig))) e2 in
      (c, after_ok e1 ∙ rest)

  -- Where signatures are of Ed25519, links that are accepted are accepted with any other
  -- signatures as well, and leave the same submission up to its commitments: `append_links` checks no
  -- signature.
  pub extend-resign :
      (max_links : ℕ) (registry : MintRegistry) (serial head_owner : Buffer) (links : List Link)
      (last_hash : Buffer) (sub sub' : Submission)
      → extend hash 0 max_links registry serial head_owner links last_hash sub ≡ ok sub'
      → (c : List Buffer) × (extend hash 0 max_links registry serial head_owner
            (resign other links)
            last_hash
            sub
          ≡ ok (record sub' { sig_commits = c }))
  unfolding extend
  extend-resign max_links registry serial head_owner links last_hash sub sub' e =
      Ensures-guard (equals serial sub.serial) _ _ P
        (λ e1. Ensures-throw_if (length links == 0) _ _ P λ e2.
          Ensures-guard (leb (length links) max_links) _ _ P λ e3.
            Ensures-guard (leb (sub.states_len + length links) max_submission_states) _ _ P λ e4.
              Ensures-guard (leb 1 sub.states_len) _ _ P λ e5.
                Ensures-bind (last_state sub) _ P λ prev e6.
                  Ensures-guard (equals (parse_owner prev) head_owner) _ _ P λ e7.
                    Ensures-bind (add_links hash 0 registry sub.states_len prev links sub) _ P
                      λ (added, last) e8.
                        Ensures-guard (equals (state_hash hash last) last_hash) _ _ P λ e9.
                          Ensures-bind (add_word 16 sub.links_count (length links)) _ P λ count e10.
                            Ensures-bind
                              (last_state (record added {
                                states_len = sub.states_len + length links;
                                links_count = count;
                              }))
                              _ P
                              λ final e11. Ensures-ok P (
                                let (c, rest) =
                                  add_links-resign registry sub.states_len prev links sub
                                    sub.sig_commits e8 in
                                let n = length-resign other links in
                                (c, rw (n, e1, e2, e3, e4, e6, e5, e7, rest, e9, e10, e11))))
        sub' e
    where
      P : Submission → Type 0
      P s =
          (c : List Buffer) × (extend hash 0 max_links registry serial head_owner
              (resign other links) last_hash sub
            ≡ ok (record s { sig_commits = c }))
