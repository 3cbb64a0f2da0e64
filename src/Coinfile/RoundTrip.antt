-- ===== src/Coinfile/RoundTrip.antt =====
-- A coin file of sdk/src/coinfile.ts and the coin that it holds determine one another.
use offline_bearer_protocol.Buffer.{Buffer}
use offline_bearer_protocol.Coinfile.{CoinCore, encode_coin_core, decode_coin_core}
use offline_bearer_protocol.Coinfile.Encoding.{Fits, body}
use offline_bearer_protocol.Coinfile.Writing.{encode_coin_core-eq}
use offline_bearer_protocol.Coinfile.Reading.{IsCoinCore, plain_body, decode_coin_core-eq}
use offline_bearer_protocol.Prelude.{
  ℕ, ◌≤◌, List, [], ◌∷◌, ◌++◌, map, length, take, ok, ◌≡◌, refl, sym, ap, ap₂, ◌∙◌, arith,
  length-map, length-take, take_all, All, ◌>>=◌,
}

-- The coin with each state and signature cut to the size of its place.
abbrev pub clipped : CoinCore → CoinCore
clipped c = record c { states = map (take 104) c.states; sigs = map (take 64) c.sigs }

All-clipped :
    (k : ℕ) (items : List Buffer)
    → All (λ s. k ≤ length s) items
    → All (λ s. length s ≡ k) (map (take k) items)
All-clipped k [] h = tt
All-clipped k (x ∷ items) (hx, h) = (omega (arith, length-take k x), All-clipped k items h)

map-take :
    (k : ℕ) (items : List Buffer) → All (λ s. length s ≡ k) items → map (take k) items ≡ items
map-take k [] h = refl
map-take k (x ∷ items) (hx, h) =
    ap₂ (λ y ys. y ∷ ys) (take_all k x (omega arith)) (map-take k items h)

All-le :
    (k : ℕ) (items : List Buffer) → All (λ s. length s ≡ k) items → All (λ s. k ≤ length s) items
All-le k [] h = tt
All-le k (x ∷ items) (hx, h) = (omega arith, All-le k items h)

clipped-IsCoinCore : (c : CoinCore) → Fits c → IsCoinCore (clipped c)
clipped-IsCoinCore c f = record {
  some_state = omega (arith, f.some_state, length-map c.states (take 104));
  sig_count =
      omega (arith, f.sig_count, length-map c.states (take 104), length-map c.sigs (take 64));
  serial_32 = f.serial_32;
  value_u64 = f.value_u64;
  scheme_u8 = f.scheme_u8;
  count_u16 = omega (arith, f.count_u16, length-map c.states (take 104));
  states_104 = All-clipped 104 c.states f.states_104;
  sigs_64 = All-clipped 64 c.sigs f.sigs_64;
}

pub IsCoinCore-Fits : {c : CoinCore} → IsCoinCore c → Fits c
IsCoinCore-Fits {c} v = record {
  some_state = v.some_state;
  sig_count = v.sig_count;
  serial_32 = v.serial_32;
  value_u64 = v.value_u64;
  scheme_u8 = v.scheme_u8;
  count_u16 = v.count_u16;
  states_104 = All-le 104 c.states v.states_104;
  sigs_64 = All-le 64 c.sigs v.sigs_64;
}

pub clipped_lem : (c : CoinCore) → IsCoinCore c → clipped c ≡ c
clipped_lem c v =
    ap₂ (λ ss gs. record c { states = ss; sigs = gs }) (map-take 104 c.states v.states_104)
      (map-take 64 c.sigs v.sigs_64)

plain_body-clipped : (c : CoinCore) → plain_body (clipped c) ≡ body c
unfolding body plain_body
plain_body-clipped c = rw (length-map c.states (take 104))

module _ (sha256 : Buffer → Buffer) (digest_32 : (b : Buffer) → length (sha256 b) ≡ 32) where
  -- With a hash function of 32 bytes, the encoder accepts states of at least 104 and signatures of at
  -- least 64 bytes where all else fits: of longer ones the file keeps only
  -- the first 104 and 64 bytes, and its checksum is right, so that the decoder returns the cut coin.
  pub decode-encode_clipped :
      (c : CoinCore)
      → Fits c
      → (encode_coin_core sha256 c >>= decode_coin_core sha256) ≡ ok (clipped c)
  decode-encode_clipped c f = rw (encode_coin_core-eq sha256 digest_32 c f) (
      ap (λ b. decode_coin_core sha256 (b ++ sha256 b)) (sym (plain_body-clipped c))
      ∙ decode_coin_core-eq (clipped c) (clipped-IsCoinCore c f) sha256 digest_32)

  -- With a hash function of 32 bytes, a coin of at least one state and one signature less than
  -- states, whose fields have the exact sizes of the layout (states of 104 bytes, signatures of 64), is
  -- decoded as it was encoded.
  pub decode-encode_coin_core :
      (c : CoinCore) → IsCoinCore c → (encode_coin_core sha256 c >>= decode_coin_core sha256) ≡ ok c
  decode-encode_coin_core c v =
      decode-encode_clipped c (IsCoinCore-Fits v) ∙ ap ok (clipped_lem c v)
