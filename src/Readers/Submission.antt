-- ===== src/Readers/Submission.antt =====
-- The reader of a submission of sdk/src/readers.ts, on the accounts that the program writes
-- (programs/obp-core/src/state.rs) and on older, shorter ones.
use offline_bearer_protocol.Buffer.{Buffer, le_bytes, of_le, subarray, read_uint}
use offline_bearer_protocol.Buffer.Fill.{subarray-part, drop-flatten}
use offline_bearer_protocol.Buffer.Words.{read_uint-ok, length-le_bytes, of_le-le_bytes}
use offline_bearer_protocol.Prelude.{
  ℕ, zero, suc, ◌+◌, ◌-◌, ◌*◌, ◌^◌, ◌<◌, ◌≤◌, List, [], ◌∷◌, ◌++◌, ◌≡◌, refl, ap, ap₂, sym, ◌∙◌,
  length, take, drop, flatten, ok, arith, All, append_assoc, append-nil, drop-add, drop-append,
  length-drop, take-append, take_all, length-append, flatten-append,
}
use offline_bearer_protocol.Program.Accounts.{Submission, submission_parts}
use offline_bearer_protocol.Readers.{OnChainSubmission, parts_of, sig_commits_of, parse_submission}
use offline_bearer_protocol.Readers.Agree.{read-number}

-- Parts of one size, read one by one.
parts_of-take :
    (k i base size : ℕ) (d : Buffer) (xs : List Buffer) (rest : Buffer)
    → drop (base + i * size) d ≡ flatten xs ++ rest
    → All (λ x. length x ≡ size) xs
    → k ≤ length xs
    → parts_of k i base size d ≡ take k xs
unfolding parts_of
parts_of-take zero i base size d xs rest e hs h = refl
parts_of-take (suc k) i base size d [] rest e hs h = absurd (omega arith)
parts_of-take (suc k) i base size d (x ∷ xs) rest e (hx, hs) h =
    let e' : drop (base + i * size) d ≡ x ++ (flatten xs ++ rest) =
      e ∙ append_assoc x (flatten xs) rest in
    let next : base + (i + 1) * size ≡ base + i * size + size = grind arith in
    let width : base + (i + 1) * size - (base + i * size) ≡ size = omega (arith, next) in
    ap₂ (λ y ys. y ∷ ys) (rw (width, e') (take-append size x (flatten xs ++ rest) (sym hx)))
      (parts_of-take k (i + 1) base size d xs rest
        (ap (λ j. drop j d) next
          ∙ drop-add (base + i * size) size d
          ∙ ap (drop size) e'
          ∙ drop-append size x (flatten xs ++ rest) (sym hx))
        hs (omega arith))

sig_commits_of-old :
    (d : Buffer)
    → length d ≡ 543
    → sig_commits_of d ≡ subarray d 414 446 ∷ subarray d 446 478 ∷ subarray d 478 510 ∷ []
unfolding sig_commits_of parts_of
sig_commits_of-old d h = rw h

parse_submission-eq :
    (d : Buffer) (s : OnChainSubmission) (last : ℕ)
    → length d - 1 ≡ last
    → subarray d 8 40 ≡ s.serial
    → read_uint 1 40 d ≡ ok s.attempt
    → subarray d 41 73 ≡ s.checker
    → subarray d 73 105 ≡ s.final_owner
    → read_uint 2 105 d ≡ ok s.links_count
    → read_uint 8 107 d ≡ ok s.started_slot
    → read_uint 8 115 d ≡ ok s.finalized_slot
    → read_uint 1 123 d ≡ ok s.status
    → read_uint 2 124 d ≡ ok s.states_len
    → parts_of s.states_len 0 126 104 d ≡ s.states
    → sig_commits_of d ≡ s.sig_commits
    → read_uint 1 last d ≡ ok s.bump
    → parse_submission d ≡ ok s
unfolding parse_submission
parse_submission-eq d s last hl e1 e2 e3 e4 e5 e6 e7 e8 e9 e10 e11 e12 =
    rw (hl, e9, e2, e5, e6, e7, e8, e12, e1, e3, e4, e10, e11)

-- An account of 543 bytes as it is read.
old_submission : Buffer → OnChainSubmission
old_submission d = record {
  serial = subarray d 8 40;
  attempt = of_le (take 1 (drop 40 d));
  checker = subarray d 41 73;
  final_owner = subarray d 73 105;
  links_count = of_le (take 2 (drop 105 d));
  started_slot = of_le (take 8 (drop 107 d));
  finalized_slot = of_le (take 8 (drop 115 d));
  status = of_le (take 1 (drop 123 d));
  states_len = of_le (take 2 (drop 124 d));
  states = parts_of (of_le (take 2 (drop 124 d))) 0 126 104 d;
  sig_commits = subarray d 414 446 ∷ subarray d 446 478 ∷ subarray d 478 510 ∷ [];
  bump = of_le (take 1 (drop 542 d));
}

-- Any account of 543 bytes, the size from before the commitments were stored, is parsed, and gets
-- three commitments, which are bytes 414 to 510 of it.
pub parse_submission-old :
    (d : Buffer)
    → length d ≡ 543
    → (s : OnChainSubmission) × (parse_submission d ≡ ok s)
      × (s.sig_commits ≡ subarray d 414 446 ∷ subarray d 446 478 ∷ subarray d 478 510 ∷ [])
unfolding old_submission
parse_submission-old d h = (
  old_submission d,
  parse_submission-eq d (old_submission d) 542 (omega (arith, h)) refl
      (read_uint-ok 1 40 d (omega (arith, h))) refl refl (read_uint-ok 2 105 d (omega (arith, h)))
      (read_uint-ok 8 107 d (omega (arith, h))) (read_uint-ok 8 115 d (omega (arith, h)))
      (read_uint-ok 1 123 d (omega (arith, h))) (read_uint-ok 2 124 d (omega (arith, h))) refl
      (sig_commits_of-old d h) (read_uint-ok 1 542 d (omega (arith, h))),
  refl,
)

-- The sizes of the fields of a stored submission.
pub record IsSubmission (disc : Buffer) (s : Submission) : Type 0 where
  pub disc_size : length disc ≡ 8
  pub serial : length s.serial ≡ 32
  pub attempt : s.attempt < 256 ^ 1
  pub checker : length s.checker ≡ 32
  pub final_owner : length s.final_owner ≡ 32
  pub links_count : s.links_count < 256 ^ 2
  pub started_slot : s.started_slot < 256 ^ 8
  pub finalized_slot : s.finalized_slot < 256 ^ 8
  pub status : s.status < 256 ^ 1
  pub states_len : s.states_len ≤ 4
  pub states_count : length s.states ≡ 4
  pub states_sized : All (λ x. length x ≡ 104) s.states
  pub sig_commits_count : length s.sig_commits ≡ 4
  pub sig_commits_sized : All (λ x. length x ≡ 32) s.sig_commits
  pub bump : s.bump < 256 ^ 1

-- What the reader makes of a stored submission.
pub on_chain_submission : Submission → OnChainSubmission
on_chain_submission s = record {
  serial = s.serial;
  attempt = s.attempt;
  checker = s.checker;
  final_owner = s.final_owner;
  links_count = s.links_count;
  started_slot = s.started_slot;
  finalized_slot = s.finalized_slot;
  status = s.status;
  states_len = s.states_len;
  states = take s.states_len s.states;
  sig_commits = s.sig_commits;
  bump = s.bump;
}

total-sized :
    (size : ℕ) (xs : List Buffer)
    → All (λ x. length x ≡ size) xs
    → length (flatten xs) ≡ length xs * size
total-sized size [] hs = omega arith
total-sized size (x ∷ xs) (h, hs) =
    let ih = total-sized size xs hs in let whole = length-append x (flatten xs) in grind arith

module _ (disc : Buffer) (s : Submission) (h : IsSubmission disc s) where
  written : Buffer
  written = flatten (submission_parts disc s)

  tail : Buffer
  tail = flatten s.sig_commits ++ le_bytes 1 s.bump

  from_states : drop 126 written ≡ flatten s.states ++ tail
  unfolding written tail
  from_states =
      let l2 = length-le_bytes 1 s.attempt in
      let l5 = length-le_bytes 2 s.links_count in
      let l6 = length-le_bytes 8 s.started_slot in
      let l7 = length-le_bytes 8 s.finalized_slot in
      let l8 = length-le_bytes 1 s.status in
      let l9 = length-le_bytes 2 s.states_len in
      let back : flatten (s.sig_commits ++ le_bytes 1 s.bump ∷ [])
          ≡ flatten s.sig_commits ++ le_bytes 1 s.bump =
        flatten-append s.sig_commits (le_bytes 1 s.bump ∷ [])
        ∙ ap (λ x. flatten s.sig_commits ++ x) (append-nil (le_bytes 1 s.bump)) in
      drop-flatten (submission_parts disc s) 10 126 (omega arith)
      ∙ flatten-append s.states (s.sig_commits ++ le_bytes 1 s.bump ∷ [])
      ∙ ap (λ x. flatten s.states ++ x) back

  states_bytes : length (flatten s.states) ≡ 416
  states_bytes = omega (arith, total-sized 104 s.states h.states_sized, h.states_count)

  commits_bytes : length (flatten s.sig_commits) ≡ 128
  commits_bytes =
      omega (arith, total-sized 32 s.sig_commits h.sig_commits_sized, h.sig_commits_count)

  from_commits : drop 542 written ≡ tail
  from_commits =
      drop-add 126 416 written
      ∙ ap (drop 416) from_states
      ∙ drop-append 416 (flatten s.states) tail (sym states_bytes)

  from_bump : drop 670 written ≡ le_bytes 1 s.bump
  unfolding tail
  from_bump =
      drop-add 542 128 written
      ∙ ap (drop 128) from_commits
      ∙ drop-append 128 (flatten s.sig_commits) (le_bytes 1 s.bump) (sym commits_bytes)

  length-written : length written ≡ 671
  length-written =
      let bump_byte = ap length from_bump ∙ length-le_bytes 1 s.bump in
      omega (arith, bump_byte, length-drop 670 written)

  written-commits : sig_commits_of written ≡ s.sig_commits
  unfolding sig_commits_of tail
  written-commits = rw length-written (
      parts_of-take 4 0 542 32 written s.sig_commits (le_bytes 1 s.bump) from_commits
        h.sig_commits_sized (omega (arith, h.sig_commits_count))
      ∙ take_all 4 s.sig_commits (omega (arith, h.sig_commits_count)))

  written-bump : read_uint 1 670 written ≡ ok s.bump
  written-bump =
      let l = length-le_bytes 1 s.bump in
      read_uint-ok 1 670 written (omega (arith, length-written))
      ∙ ap (λ x. ok (of_le (take 1 x))) from_bump
      ∙ ap (λ x. ok (of_le x)) (take_all 1 (le_bytes 1 s.bump) (omega arith))
      ∙ ap ok (of_le-le_bytes 1 s.bump h.bump)

-- A submission that the program stores, of four states and four commitments, at most four states
-- in use, fields with their sizes and numbers that fit their widths behind a discriminator of
-- eight bytes, is what `parseSubmission` reads back: the states in use and all other fields.
pub parse_submission-written :
    (disc : Buffer) (s : Submission)
    → IsSubmission disc s
    → parse_submission (flatten (submission_parts disc s)) ≡ ok (on_chain_submission s)
unfolding on_chain_submission written tail
parse_submission-written disc s h =
    let ps = submission_parts disc s in
    let l2 = length-le_bytes 1 s.attempt in
    let l5 = length-le_bytes 2 s.links_count in
    let l6 = length-le_bytes 8 s.started_slot in
    let l7 = length-le_bytes 8 s.finalized_slot in
    let l8 = length-le_bytes 1 s.status in
    parse_submission-eq (flatten ps) (on_chain_submission s) 670
      (omega (arith, length-written disc s h))
      (subarray-part ps 1 8 40 refl (omega arith) (omega arith))
      (read-number ps 2 1 s.attempt 40 refl (omega arith) h.attempt)
      (subarray-part ps 3 41 73 refl (omega arith) (omega arith))
      (subarray-part ps 4 73 105 refl (omega arith) (omega arith))
      (read-number ps 5 2 s.links_count 105 refl (omega arith) h.links_count)
      (read-number ps 6 8 s.started_slot 107 refl (omega arith) h.started_slot)
      (read-number ps 7 8 s.finalized_slot 115 refl (omega arith) h.finalized_slot)
      (read-number ps 8 1 s.status 123 refl (omega arith) h.status)
      (read-number ps 9 2 s.states_len 124 refl (omega arith) (omega (arith, h.states_len)))
      (parts_of-take s.states_len 0 126 104 (flatten ps) s.states
        (flatten s.sig_commits ++ le_bytes 1 s.bump) (from_states disc s h) h.states_sized
        (omega (arith, h.states_len, h.states_count)))
      (written-commits disc s h) (written-bump disc s h)
