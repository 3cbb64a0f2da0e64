-- ===== src/Instructions/Append/Selected.antt =====
-- What the precompile's records select in the content of the append instruction of
-- sdk/src/instructions.ts.
use offline_bearer_protocol.Buffer.{Buffer, subarray}
use offline_bearer_protocol.Instructions.Append.{Link, record_of, records_of, link_parts}
use offline_bearer_protocol.Precompile.{OffsetRecord}
use offline_bearer_protocol.Prelude.{
  ℕ, ◌+◌, ◌-◌, ◌*◌, ◌≤◌, List, [], ◌∷◌, ◌++◌, ◌≡◌, refl, sym, ap, ap₂, ◌∙◌, map, length, drop,
  flatten, All, arith, append_assoc, append-nil, drop-add, drop-append, drop-append_le, take-append,
  take-append_le, length-drop, ne→==-false,
}

-- A signature that the precompile checks: by which key, and over which message.
pub record Check : Type 0 where
  pub sig : Buffer
  pub key : Buffer
  pub msg : Buffer

-- The bytes that a record points to, a signature of 64 bytes and a key of 32.
unfoldable pub selected : Buffer → OffsetRecord → Check
selected content r = record {
  sig = subarray content r.sig_off (r.sig_off + 64);
  key = subarray content r.pub_off (r.pub_off + 32);
  msg = subarray content r.msg_off (r.msg_off + r.msg_size);
}

-- What a check-in's links have to prove, from the owner of the head on: each link is signed by the
-- owner of the state before it, over the hash that the state after it holds, and the last one over
-- the hash of the last state.
unfoldable pub checks : Buffer → List Link → Buffer → List Check
checks owner [] last_hash = []
checks owner (l ∷ []) last_hash = record { sig = l.sig; key = owner; msg = last_hash } ∷ []
checks owner (l ∷ m ∷ links) last_hash =
    record { sig = l.sig; key = owner; msg = subarray m.state 72 104 }
    ∷ checks (subarray l.state 40 72) (m ∷ links) last_hash

pub record IsLink (l : Link) : Type 0 where
  pub state_size : length l.state ≡ 104
  pub sig_size : length l.sig ≡ 64

subarray-at :
    (content : Buffer) (at size : ℕ) (part rest : Buffer)
    → drop at content ≡ part ++ rest
    → length part ≡ size
    → subarray content at (at + size) ≡ part
subarray-at content at size part rest e h =
    let width : at + size - at ≡ size = omega arith in
    rw (width, e) (take-append size part rest (sym h))

-- A field of a part that stands at `base`.
subarray-field :
    (content : Buffer) (base i size : ℕ) (part rest : Buffer)
    → drop base content ≡ part ++ rest
    → i + size ≤ length part
    → subarray content (base + i) (base + i + size) ≡ subarray part i (i + size)
subarray-field content base i size part rest e h =
    let width : base + i + size - (base + i) ≡ size = omega arith in
    let width' : i + size - i ≡ size = omega arith in
    rw (width, width', drop-add base i content, e, drop-append_le i part rest (omega arith))
      (take-append_le size (drop i part) rest (omega (arith, length-drop i part)))

module _ (content : Buffer) (base : ℕ) (l : Link) (rest : Buffer) (u : IsLink l)
    (e : drop base content ≡ l.state ++ (l.sig ++ rest)) where
  link-sig : drop (base + 104) content ≡ l.sig ++ rest
  link-sig =
      rw (drop-add base 104 content, e) (drop-append 104 l.state (l.sig ++ rest) (sym u.state_size))

  link-next : drop (base + 168) content ≡ rest
  link-next =
      let split : base + 168 ≡ base + 104 + 64 = omega arith in
      rw (split, drop-add (base + 104) 64 content, link-sig)
        (drop-append 64 l.sig rest (sym u.sig_size))

  link-sig_at : subarray content (base + 104) (base + 104 + 64) ≡ l.sig
  link-sig_at = subarray-at content (base + 104) 64 l.sig rest link-sig u.sig_size

  link-owner_at : subarray content (base + 40) (base + 40 + 32) ≡ subarray l.state 40 72
  link-owner_at =
      subarray-field content base 40 32 l.state (l.sig ++ rest) e (omega (arith, u.state_size))

  link-prev_hash_at : subarray content (base + 72) (base + 72 + 32) ≡ subarray l.state 72 104
  link-prev_hash_at =
      subarray-field content base 72 32 l.state (l.sig ++ rest) e (omega (arith, u.state_size))

-- The fields of a record, the two conditions decided.
record_of-pub_first : (n : ℕ) → (record_of n 0).pub_off ≡ 40
unfolding record_of
record_of-pub_first n = refl

record_of-pub_next : (n i : ℕ) → (record_of n (i + 1)).pub_off ≡ 76 + i * 168 + 40
unfolding record_of
record_of-pub_next n i =
    let back : i + 1 - 1 ≡ i = omega arith in
    rw (ne→==-false (i + 1) 0 (λ e. omega (arith, e)), back)

check_cong :
    {a a' b b' c c' : Buffer}
    → a ≡ a'
    → b ≡ b'
    → c ≡ c'
    → Path Check (record { sig = a; key = b; msg = c }) (record { sig = a'; key = b'; msg = c' })
check_cong {a} {a'} {b} {b'} {c} {c'} ha hb hc =
    ap (λ x. record { sig = x; key = b; msg = c }) ha
    ∙ ap₂ (λ y z. record { sig = a'; key = y; msg = z }) hb hc

selected-eq :
    (content : Buffer) (n i : ℕ) {pub_off msg_off : ℕ} {a b c : Buffer}
    → (record_of n i).pub_off ≡ pub_off
    → (record_of n i).msg_off ≡ msg_off
    → subarray content (76 + i * 168 + 104) (76 + i * 168 + 104 + 64) ≡ a
    → subarray content pub_off (pub_off + 32) ≡ b
    → subarray content msg_off (msg_off + 32) ≡ c
    → selected content (record_of n i) ≡ record { sig = a; key = b; msg = c }
unfolding selected record_of
selected-eq content n i hp hm ha hb hc =
    check_cong ha (ap (λ p. subarray content p (p + 32)) hp ∙ hb)
      (ap (λ p. subarray content p (p + 32)) hm ∙ hc)

record_of-msg_last : (n i : ℕ) → n ≡ i + 1 → (record_of n i).msg_off ≡ 76 + i * 168 + 168
unfolding record_of
record_of-msg_last n i h = ground (arith, h)

record_of-msg_next : (n i : ℕ) → i + 2 ≤ n → (record_of n i).msg_off ≡ 76 + (i + 1) * 168 + 72
unfolding record_of
record_of-msg_next n i h = ground (arith, h)

first_link :
    (l : Link) (links : List Link) (end : Buffer)
    → flatten (link_parts (l ∷ links)) ++ end
      ≡ l.state ++ (l.sig ++ (flatten (link_parts links) ++ end))
unfolding link_parts
first_link l links end =
    append_assoc l.state (l.sig ++ flatten (link_parts links)) end
    ∙ ap (λ x. l.state ++ x) (append_assoc l.sig (flatten (link_parts links)) end)

-- The precompile's records, read in a content where the links stand at byte 76 and the last hash
-- behind them.
pub selected-checks :
    (content : Buffer) (links : List Link) (n i : ℕ) (owner last_hash : Buffer)
    → All IsLink links
    → n ≡ i + length links
    → drop (76 + i * 168) content ≡ flatten (link_parts links) ++ last_hash
    → length last_hash ≡ 32
    → subarray content (record_of n i).pub_off ((record_of n i).pub_off + 32) ≡ owner
    → map (selected content) (records_of n i links) ≡ checks owner links last_hash
unfolding records_of checks link_parts
selected-checks content [] n i owner last_hash us hn e hl ho = refl
selected-checks content (l ∷ []) n i owner last_hash (u, us) hn e hl ho =
    let base = 76 + i * 168 in
    let e' = e ∙ first_link l [] last_hash in
    ap (λ c. c ∷ [])
      (selected-eq content n i refl (record_of-msg_last n i hn)
        (link-sig_at content base l last_hash u e') ho
        (subarray-at content (base + 168) 32 last_hash []
          (link-next content base l last_hash u e' ∙ sym (append-nil last_hash)) hl))
selected-checks content (l ∷ m ∷ links) n i owner last_hash (u, (v, us)) hn e hl ho =
    let base = 76 + i * 168 in
    let rest = flatten (link_parts (m ∷ links)) ++ last_hash in
    let e' : drop base content ≡ l.state ++ (l.sig ++ rest) =
      e ∙ first_link l (m ∷ links) last_hash in
    let next : 76 + (i + 1) * 168 ≡ base + 168 = omega arith in
    let e_next : drop (76 + (i + 1) * 168) content ≡ rest =
      ap (λ k. drop k content) next ∙ link-next content base l rest u e' in
    ap₂ (λ c cs. c ∷ cs)
      (selected-eq content n i refl (record_of-msg_next n i (omega (arith, hn)))
        (link-sig_at content base l rest u e') ho
        (link-prev_hash_at content (76 + (i + 1) * 168) m _ v
          (e_next ∙ first_link m links last_hash)))
      (selected-checks content (m ∷ links) n (i + 1) (subarray l.state 40 72) last_hash (v, us)
        (omega (arith, hn)) e_next hl
        (ap (λ p. subarray content p (p + 32)) (record_of-pub_next n i)
          ∙ link-owner_at content base l rest u e'))
