-- ===== src/Credentials/Accepted.antt =====
-- When ci/api_credentials.py accepts an application id and hash.
use capybaragram_build.Prelude.{
  ◌^◌, inl, inr, Bool-cases, ◌<◌, true, false, List, length, every, leb, ◌≡◌, ◌≢◌, refl, sym, ap,
  subst, arith, ok, require-eq-ok, refuse-eq-ok,
}
use capybaragram_build.Text.{Text, codes, text_eq, listed}
use capybaragram_build.Text.Equal.{text_eq_refl, text_eq_sound}
use capybaragram_build.Credentials.{
  credentials, is_id, is_digit, is_hash, is_hex, value, value_from, get, id_name, hash_name,
  samples,
}
use capybaragram_build.Credentials.Number.{value_injective, value_positive}

-- The numbers that are accepted: positive, of 31 bits, and not those of the upstream samples.
pub record Accepted (api_id api_hash : Text) : Type 0 where
  pub positive : 0 < value api_id
  pub int32 : value api_id < 2 ^ 31
  pub no_sample : (value api_id ≢ 6) × (value api_id ≢ 17349)
  pub hash_length : length api_hash ≡ 32
  pub hash_hex : every is_hex api_hash ≡ true

unlisted :
    (name : Text)
    → listed name samples ≡ false
    → (text_eq name (codes "6") ≡ false) × (text_eq name (codes "17349") ≡ false)
unfolding listed
unlisted name h = (ground arith, ground arith)

no_sample_value :
    (name sample : Text)
    → is_id name ≡ true
    → is_id sample ≡ true
    → text_eq name sample ≡ false
    → value name ≢ value sample
no_sample_value name sample h k d e =
    let same : text_eq name name ≡ false =
      subst (λ t. text_eq name t ≡ false) (sym (value_injective name sample h k e)) d in
    cc (same, text_eq_refl name)

passes-Accepted :
    (a b : Text)
    → is_id a ≡ true
    → leb (value a) 2147483647 ≡ true
    → is_hash b ≡ true
    → listed a samples ≡ false
    → Accepted a b
unfolding is_hash is_id value_from every is_digit
passes-Accepted a b p q r s =
    let (six, other) = unlisted a s in
    record {
      positive = value_positive a p;
      int32 = ground (arith, q);
      no_sample = (
        no_sample_value a (codes "6") p refl six,
        no_sample_value a (codes "17349") p refl other,
      );
      hash_length = ground (arith, r);
      hash_hex = ground (arith, r);
    }

-- If the environment is accepted, the pair returned is its two entries unchanged, the id writes a
-- number n with 0 < n < 2 ^ 31 that is no sample's, and the hash has 32 hexadecimal digits.
pub credentials-Accepted :
    (env : List (Text × Text)) (api_id api_hash : Text)
    → credentials env ≡ ok (api_id, api_hash)
    → (api_id ≡ get id_name env) × (api_hash ≡ get hash_name env) × Accepted api_id api_hash
unfolding credentials is_hash
credentials-Accepted env i k h =
    let a = get id_name env in
    let b = get hash_name env in
    let (p, h1) = require-eq-ok (is_id a) _ _ h in
    let (q, h2) = require-eq-ok (leb (value a) 2147483647) _ _ h1 in
    let (r, h3) = require-eq-ok (is_hash b) _ _ h2 in
    let (s, h4) = refuse-eq-ok (listed a samples) _ _ h3 in
    let i_same : a ≡ i = cc h4 in
    let k_same : b ≡ k = cc h4 in
    (
      sym i_same,
      sym k_same,
      subst (λ t. Accepted t k) i_same (subst (Accepted a) k_same (passes-Accepted a b p q r s)),
    )

listed-samples : (a : Text) → value a ≢ 6 → value a ≢ 17349 → listed a samples ≡ false
unfolding listed value_from
listed-samples a m n = elim (Bool-cases (listed a samples)) [
  | inr e ↦ e
  | inl e ↦ elim (Bool-cases (text_eq a (codes "6"))) [
    | inl s ↦ absurd (m (ap value (text_eq_sound a (codes "6") s)))
    | inr s ↦ absurd (n (ap value (text_eq_sound a (codes "17349") (ground (arith, e, s)))))
  ]
]

-- Every environment whose id is a digit string of that form, below 2 ^ 31 and no sample's number,
-- and whose hash has 32 hexadecimal digits, is accepted as it is.
pub credentials_complete :
    (env : List (Text × Text))
    → is_id (get id_name env) ≡ true
    → Accepted (get id_name env) (get hash_name env)
    → credentials env ≡ ok (get id_name env, get hash_name env)
unfolding credentials is_hash
credentials_complete env p a =
    let q : leb (value (get id_name env)) 2147483647 ≡ true = ground (arith, a.int32) in
    let r : is_hash (get hash_name env) ≡ true = ground (arith, a.hash_length, a.hash_hex) in
    rw (p, q, r, listed-samples (get id_name env) a.no_sample.0 a.no_sample.1) refl
