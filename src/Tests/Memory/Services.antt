-- ===== src/Tests/Memory/Services.antt =====
-- Randomness, tokens and mail in memory.
use servora_iam.Prelude.{
  ap, ℕ, zero, suc, ◌+◌, ◌≡◌, refl, true, none, some, List, [], ◌∷◌, ◌++◌, Str, ◌==◌, ==-refl, ltb,
  if◌then◌else◌, arith, length, replicate, take, drop, ℕ,
}
use servora_iam.Platform.Crypto.{Crypto, Jwt, UserClaims, Verdict}
use servora_iam.Platform.Mailer.{Mailer, Email}

pub length-replicate : (n : ℕ) (x : ℕ) → length (replicate n x) ≡ n
length-replicate zero x = refl
length-replicate (suc n) x = ap suc (length-replicate n x)

pub read-length : (n s : ℕ) {bs : List ℕ} → some (replicate n s) ≡ some bs → length bs ≡ n
read-length n s h = ground (arith, length-replicate n s)

pub compare_same :
    (password : Str) {hash : Str}
    → some (1 ∷ password) ≡ some hash
    → (hash == (1 ∷ password)) ≡ true
compare_same password h = ground (arith, ==-refl (1 ∷ password))

-- The source counts the draws. A hash is the password behind a mark, a digest is the text itself.
abbrev pub memory_crypto : Crypto
memory_crypto = record {
  Source = ℕ;
  read = λ n s. (some (replicate n s), s + 1);
  new_uuid = λ s. (s ∷ [], s + 1);
  parse_uuid = λ s. some s;
  uuid_string = λ u. u;
  bcrypt_generate = λ password s. (some (1 ∷ password), s + 1);
  bcrypt_compare = λ hash password. hash == (1 ∷ password);
  sha256 = λ s. s;
  read_length = λ n s h. read-length n s h;
  parse-uuid_string = λ u. refl;
  compare-generate = λ password s h. compare_same password h;
}

-- A token lists its claims, each behind its length.
abbrev pub put_str : Str → List ℕ → List ℕ
put_str s rest = length s ∷ s ++ rest

abbrev pub get_str : List ℕ → Str × List ℕ
get_str [] = ([], [])
get_str (n ∷ xs) = (take n xs, drop n xs)

abbrev pub get_nat : List ℕ → ℕ × List ℕ
get_nat [] = (0, [])
get_nat (n ∷ xs) = (n, xs)

pub take_all : (s rest : List ℕ) → take (length s) (s ++ rest) ≡ s
take_all [] rest = refl
take_all (x ∷ s) rest = ap (λ t. x ∷ t) (take_all s rest)

pub drop_all : (s rest : List ℕ) → drop (length s) (s ++ rest) ≡ rest
drop_all [] rest = refl
drop_all (x ∷ s) rest = drop_all s rest

pub get-put : (s : Str) (rest : List ℕ) → get_str (put_str s rest) ≡ (s, rest)
get-put s rest = rw (take_all s rest, drop_all s rest) refl

abbrev pub claims_list : UserClaims → List ℕ
claims_list c =
    c.expires_at
    ∷ c.issued_at
    ∷ put_str c.id (
        put_str c.username (
          put_str c.role
            (put_str c.nonce (put_str c.subject (put_str c.audience (put_str c.issuer []))))))

abbrev pub claims_of : List ℕ → UserClaims
claims_of xs =
    let (expires, xs₁) = get_nat xs in
    let (issued, xs₂) = get_nat xs₁ in
    let (id, xs₃) = get_str xs₂ in
    let (username, xs₄) = get_str xs₃ in
    let (role, xs₅) = get_str xs₄ in
    let (nonce, xs₆) = get_str xs₅ in
    let (subject, xs₇) = get_str xs₆ in
    let (audience, xs₈) = get_str xs₇ in
    let (issuer, xs₉) = get_str xs₈ in
    record {
      id = id;
      username = username;
      role = role;
      nonce = nonce;
      subject = subject;
      audience = audience;
      expires_at = expires;
      issued_at = issued;
      issuer = issuer;
    }

claims_of_list : (c : UserClaims) → claims_of (claims_list c) ≡ c
claims_of_list c = simp (take_all, drop_all)

abbrev pub judged : UserClaims → ℕ → Verdict
judged c now = if ltb now c.expires_at then Verdict.valid c else Verdict.expired

pub judged_list :
    (c : UserClaims) (now : ℕ) {token : Str}
    → some (claims_list c) ≡ some token
    → judged (claims_of token) now ≡ judged c now
judged_list c now h = ground (arith, claims_of_list c)

abbrev pub memory_jwt : Jwt
memory_jwt = record {
  sign = λ c. some (claims_list c);
  verify = λ token now. judged (claims_of token) now;
  numeric_date = λ t. t;
  verify-sign = λ c now h. judged_list c now h;
}

abbrev pub memory_mailer : Mailer
memory_mailer = record {
  Outbox = List Email;
  sent = λ o. o;
  send = λ m o. (true, o ++ m ∷ []);
  render_file = λ directory template d. none;
  render_embedded = λ template d. some (template ++ d.link);
  send_sent = λ m o h. refl;
}
