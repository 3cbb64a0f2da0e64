-- ===== src/Program/Append/Grows.antt =====
-- The chain in a submission's account, as programs/obp-core/src/instructions/checkin.rs starts and
-- extends it.
use offline_bearer_protocol.Buffer.{Buffer, equals}
use offline_bearer_protocol.Instructions.Append.{Link}
use offline_bearer_protocol.Prelude.{
  ℕ, zero, suc, ◌+◌, ◌≤◌, ◌<◌, ◌≡◌, refl, sym, ap, subst, List, [], ◌∷◌, ◌++◌, append_assoc,
  append-nil, take, length, map, set, get_elem?, ok, Ensures, Ensures-ok, Ensures-bind,
  Ensures-guard, Ensures-throw_if, ◌-◌, length-take, le→leb, >>=-eq-ok, some, ◌==◌, leb, leb→le,
  arith, ◌∙◌, ok-injective,
}
use offline_bearer_protocol.Program.Accounts.{MintRegistry, Submission}
use offline_bearer_protocol.Program.Append.{
  add_links, check_sig_format, extend, max_submission_states,
}
use offline_bearer_protocol.Program.Checks.{check_link, check_chain, last_state, state_at}
use offline_bearer_protocol.Program.Errors.{Failure}
use offline_bearer_protocol.Program.History
use offline_bearer_protocol.Program.History.{IsHistory, IsHistory-last, check_chain-IsHistory}
use offline_bearer_protocol.Program.State.{state_hash, parse_owner}
use offline_bearer_protocol.Program.Words.{add_word-eq-ok, add_word}

-- A submission of the registry's coin whose states in use are a history, with the count of its
-- links and its final owner.
pub record IsGenuine (hash : Buffer → Buffer) (registry : MintRegistry) (sub : Submission)
    : Type 0 where
  pub slots : length sub.states ≡ 4
  pub fits : sub.states_len ≤ 4
  pub last : Buffer
  pub history : IsHistory hash registry (take sub.states_len sub.states) last
  pub owner : sub.final_owner ≡ parse_owner last
  pub counted : sub.links_count + 1 ≡ sub.states_len
  pub serial : sub.serial ≡ registry.serial

length-set : {A : Type 0} (xs : List A) (i : ℕ) (v : A) → length (set xs i v) ≡ length xs
length-set [] i v = refl
length-set (x ∷ xs) zero v = refl
length-set (x ∷ xs) (suc i) v = ap suc (length-set xs i v)

take-set :
    {A : Type 0} (xs : List A) (i : ℕ) (v : A)
    → i < length xs
    → take (suc i) (set xs i v) ≡ take i xs ++ (v ∷ [])
take-set [] i v h = absurd (omega arith)
take-set (x ∷ xs) zero v h = refl
take-set (x ∷ xs) (suc i) v h = ap (λ l. x ∷ l) (take-set xs i v (omega arith))

get_elem-take :
    {A : Type 0} (i n : ℕ) (xs : List A) → i < n → get_elem? (take n xs) i ≡ get_elem? xs i
get_elem-take i zero xs h = absurd (omega arith)
get_elem-take i (suc n) [] h = refl
get_elem-take zero (suc n) (x ∷ xs) h = refl
get_elem-take (suc i) (suc n) (x ∷ xs) h = get_elem-take i n xs (omega arith)

-- What `append_links` leaves of a submission beside its states and commitments.
pub record SameButStates (a b : Submission) : Type 0 where
  pub same_serial : b.serial ≡ a.serial
  pub same_attempt : b.attempt ≡ a.attempt
  pub same_checker : b.checker ≡ a.checker
  pub same_count : b.links_count ≡ a.links_count
  pub same_status : b.status ≡ a.status
  pub same_len : b.states_len ≡ a.states_len

-- The states that the loop leaves, up to the last link.
record Added (hash : Buffer → Buffer) (registry : MintRegistry) (i : ℕ) (prev : Buffer)
    (links : List Link) (a b : Submission) : Type 0 where
  chained : check_chain hash registry prev (map (λ (l : Link). l.state) links) ≡ ok tt
  used :
      i + length links ≤ length a.states
      → take (i + length links) b.states ≡ take i a.states ++ map (λ (l : Link). l.state) links
  same_slots : length b.states ≡ length a.states
  same : SameButStates a b

add_links-Added :
    (hash : Buffer → Buffer) (sig_scheme : ℕ) (registry : MintRegistry) (i : ℕ) (prev : Buffer)
    (links : List Link) (sub : Submission) {added : Submission} {last : Buffer}
    → add_links hash sig_scheme registry i prev links sub ≡ ok (added, last)
    → Added hash registry i prev links sub added
unfolding add_links check_chain
add_links-Added hash sig_scheme registry i prev [] sub {added} {last} e =
    let pair : ◌≡◌ {A = Submission × Buffer} (sub, prev) (added, last) =
      ok-injective {E = Failure} e in
    subst (Added hash registry i prev [] sub) (ap (λ (p : Submission × Buffer). p.0) pair) (record {
      chained = refl;
      used = λ fits. let z : i + 0 ≡ i = omega arith in rw (z, append-nil (take i sub.states));
      same_slots = refl;
      same = record {
        same_serial = refl;
        same_attempt = refl;
        same_checker = refl;
        same_count = refl;
        same_status = refl;
        same_len = refl;
      };
    })
add_links-Added hash sig_scheme registry i prev (link ∷ links) sub e =
    let (done, e1, f1) = >>=-eq-ok (check_link hash registry prev link.state) _ e in
    let (done, e2, f2) = >>=-eq-ok (check_sig_format hash sig_scheme link.sig) _ f1 in
    let slots = length-set sub.states i link.state in
    let rest = add_links-Added hash sig_scheme registry (i + 1) link.state links _ f2 in
    let n : i + suc (length links) ≡ i + 1 + length links = omega arith in
    let k : i + 1 ≡ suc i = omega arith in
    record {
      chained = rw (e1, rest.chained);
      used = λ fits.
          let written = take-set sub.states i link.state (omega arith) in
          let used = rest.used (omega arith) in
          rw (
            n,
            used,
            k,
            written,
            append_assoc (take i sub.states) (link.state ∷ []) (map (λ (l : Link). l.state) links),
          );
      same_slots = rest.same_slots ∙ slots;
      same = record {
        same_serial = rest.same.same_serial;
        same_attempt = rest.same.same_attempt;
        same_checker = rest.same.same_checker;
        same_count = rest.same.same_count;
        same_status = rest.same.same_status;
        same_len = rest.same.same_len;
      };
    }

last_state-last :
    (hash : Buffer → Buffer) (registry : MintRegistry) (sub : Submission) (last : Buffer)
    → sub.states_len ≤ length sub.states
    → IsHistory hash registry (take sub.states_len sub.states) last
    → last_state sub ≡ ok last
unfolding last_state state_at
last_state-last hash registry sub last fits h =
    let (some_states, at_end) =
      IsHistory-last hash registry (take sub.states_len sub.states) last h in
    let n = length-take sub.states_len sub.states in
    let l : length (take sub.states_len sub.states) ≡ sub.states_len = omega arith in
    let e : get_elem? (take sub.states_len sub.states) (sub.states_len - 1) ≡ some last =
      subst (λ k. get_elem? (take sub.states_len sub.states) (k - 1) ≡ some last) l at_end in
    rw (
      le→leb 1 sub.states_len (omega arith),
      sym (get_elem-take (sub.states_len - 1) sub.states_len sub.states (omega arith)),
      e,
    )

module _ (hash : Buffer → Buffer) (registry : MintRegistry) where
  longer-IsGenuine :
      (prev : Buffer) (links : List Link) (sub added : Submission) (count : ℕ) (final : Buffer)
      → IsGenuine hash registry sub
      → sub.states_len + length links ≤ 4
      → last_state sub ≡ ok prev
      → Added hash registry sub.states_len prev links sub added
      → count ≡ sub.links_count + length links
      → last_state
          (record added { states_len = sub.states_len + length links; links_count = count })
        ≡ ok final
      → IsGenuine hash registry (record added {
        states_len = sub.states_len + length links;
        links_count = count;
        final_owner = parse_owner final;
      })
  longer-IsGenuine prev links sub added count final g fits at_prev a counted at_final =
      let before : prev ≡ g.last = ok-injective {E = Failure} (
        sym at_prev
        ∙ last_state-last hash registry sub g.last (omega (arith, g.slots, g.fits)) g.history) in
      let chained : check_chain hash registry g.last (map (λ (l : Link). l.state) links) ≡ ok tt =
        subst (λ p. check_chain hash registry p (map (λ (l : Link). l.state) links) ≡ ok tt) before
          a.chained in
      let (last, h) = check_chain-IsHistory hash registry _ g.last _ g.history chained in
      let history : IsHistory hash registry (take (sub.states_len + length links) added.states)
          last =
        subst (λ l. IsHistory hash registry l last) (sym (a.used (omega (arith, g.slots)))) h in
      let longer : Submission = record added {
        states_len = sub.states_len + length links;
        links_count = count;
      } in
      let here =
        last_state-last hash registry longer last (omega (arith, g.slots, a.same_slots)) history in
      record {
        slots = a.same_slots ∙ g.slots;
        fits = fits;
        last = last;
        history = history;
        owner = ap parse_owner (ok-injective {E = Failure} (sym at_final ∙ here));
        counted = omega (arith, g.counted);
        serial = a.same.same_serial ∙ g.serial;
      }

  -- What `append_links` makes of a submission.
  pub record Grown (sub s : Submission) : Type 0 where
    pub same_attempt : s.attempt ≡ sub.attempt
    pub same_status : s.status ≡ sub.status
    pub genuine : IsGenuine hash registry sub → IsGenuine hash registry s

  pub extend-Grown :
      (sig_scheme max_links : ℕ) (serial head_owner : Buffer) (links : List Link)
      (last_hash : Buffer) (sub : Submission)
      → Ensures
          (extend hash sig_scheme max_links registry serial head_owner links last_hash sub)
          (Grown sub)
  unfolding extend
  extend-Grown sig_scheme max_links serial head_owner links last_hash sub =
      Ensures-guard (equals serial sub.serial) _ _ _ λ e1.
        Ensures-throw_if (length links == 0) _ _ _ λ e2.
          Ensures-guard (leb (length links) max_links) _ _ _ λ e3.
            Ensures-guard (leb (sub.states_len + length links) max_submission_states) _ _ _ λ e4.
              Ensures-guard (leb 1 sub.states_len) _ _ _ λ e5.
                Ensures-bind (last_state sub) _ _ λ prev e6.
                  Ensures-guard (equals (parse_owner prev) head_owner) _ _ _ λ e7.
                    Ensures-bind (add_links hash sig_scheme registry sub.states_len prev links sub)
                      _ _
                      λ (added, last) e8.
                        Ensures-guard (equals (state_hash hash last) last_hash) _ _ _ λ e9.
                          Ensures-bind (add_word 16 sub.links_count (length links)) _ _ λ count e10.
                            Ensures-bind
                              (last_state (record added {
                                states_len = sub.states_len + length links;
                                links_count = count;
                              }))
                              _ _
                              λ final e11. Ensures-ok (Grown sub) (
                                let fits = leb→le _ _ e4 in
                                let a =
                                  add_links-Added hash sig_scheme registry sub.states_len prev links
                                    sub e8 in
                                record {
                                  same_attempt = a.same.same_attempt;
                                  same_status = a.same.same_status;
                                  genuine = λ g.
                                      longer-IsGenuine prev links sub added count final g fits e6 a
                                        (add_word-eq-ok 16 sub.links_count (length links) e10).1
                                        e11;
                                })

  -- Once a submission holds a history of the registry's coin, and its final owner and its count of
  -- links are those of the states in use, what `append_links` makes of it does as well.
  pub extend-IsGenuine :
      (sig_scheme max_links : ℕ) (serial head_owner : Buffer) (links : List Link)
      (last_hash : Buffer) (sub : Submission)
      → IsGenuine hash registry sub
      → Ensures
          (extend hash sig_scheme max_links registry serial head_owner links last_hash sub)
          (IsGenuine hash registry)
  extend-IsGenuine sig_scheme max_links serial head_owner links last_hash sub g s e =
      (extend-Grown sig_scheme max_links serial head_owner links last_hash sub s e).genuine g

-- The registry's fields that say which coin it is.
pub record SameCoin (r r' : MintRegistry) : Type 0 where
  pub same_serial : r'.serial ≡ r.serial
  pub same_value : r'.value ≡ r.value
  pub same_genesis : r'.genesis_state_hash ≡ r.genesis_state_hash

module _ (hash : Buffer → Buffer) (r r' : MintRegistry) (same : SameCoin r r') where
  IsHistory-same :
      (states : List Buffer) (last : Buffer)
      → IsHistory hash r states last
      → IsHistory hash r' states last
  IsHistory-same _ _ (History.genesis s e) = History.genesis s (e ∙ sym same.same_genesis)
  IsHistory-same _ _ (History.transfer states prev cur h f) =
      History.transfer states prev cur (IsHistory-same states prev h) (record {
        serial = f.serial ∙ sym same.same_serial;
        value = f.value ∙ sym same.same_value;
        links = f.links;
      })

  pub IsGenuine-same : (sub : Submission) → IsGenuine hash r sub → IsGenuine hash r' sub
  IsGenuine-same sub g = record {
    slots = g.slots;
    fits = g.fits;
    last = g.last;
    history = IsHistory-same _ _ g.history;
    owner = g.owner;
    counted = g.counted;
    serial = g.serial ∙ sym same.same_serial;
  }
