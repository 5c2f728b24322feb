-- ===== src/Data/RefreshTokens/Revocation.antt =====
-- What the callers of app/iam/service/internal/data/authn.go rely on: which refresh tokens are
-- found after a save, a deletion and the revocation of all tokens of a user.
use servora_iam.Prelude.{
  ℕ, ◌+◌, ◌≤◌, ◌<◌, ◌≡◌, ◌≢◌, refl, true, Str, ◌==◌, ==-refl, eq_iff, arith, some, none,
  Option-cases, inl, inr, if◌then◌else◌, ltb,
}
use servora_iam.Errors.{Result, ok, err, failure}
use servora_iam.Exec.{result_of_option, ◌>>=◌}
use servora_iam.Platform.World.{
  Env, World, redis_set, redis_get, redis_del, redis_s_add, redis_s_members, redis_expire,
}
use servora_iam.Data.RefreshTokens.{
  refresh_key, user_tokens_key, del_all, save_refresh_token, get_refresh_token,
  delete_refresh_token, delete_found, delete_user_refresh_tokens,
}
use servora_iam.Data.RefreshTokens.Keys.{user_tokens_key-ne-refresh_key}
use servora_iam.Data.RefreshTokens.Loops.{value-del_all}
use servora_iam.Data.RefreshTokens.Index.{
  owner, is_listed, IsIndexed, elapse, owner-save, clock-save,
}
use servora_iam.Data.RefreshTokens.Deletion.{owner-delete_found, delete_found-IsIndexed}

module _ ⦃e : Env⦄ where
  -- GetRefreshToken reports the owner of a token and nothing else.
  pub get-owner :
      (token : Str) (w : World e) {u : Str}
      → (get_refresh_token token w).0 ≡ ok u
      → owner w w.clock token ≡ some u
  unfolding get_refresh_token redis_get
  get-owner token w {u} h =
      ground (arith, e.redis.get_sound (refresh_key token) w.clock w.kv {v = u})

  pub owner-get :
      (token : Str) (w : World e) (n : ℕ) (t : Str)
      → owner (get_refresh_token token w).1 n t ≡ owner w n t
  unfolding get_refresh_token redis_get
  owner-get token w n t =
      ground (arith, e.redis.get_frame (refresh_key token) w.clock w.kv (refresh_key t))

  pub listed-get :
      (token : Str) (w : World e) (n : ℕ) (u t : Str)
      → is_listed (get_refresh_token token w).1 n u t ≡ is_listed w n u t
  unfolding get_refresh_token redis_get
  listed-get token w n u t =
      ground (arith, e.redis.get_frame (refresh_key token) w.clock w.kv (user_tokens_key u))

  pub clock-get : (token : Str) (w : World e) → (get_refresh_token token w).1.clock ≡ w.clock
  unfolding get_refresh_token redis_get
  clock-get token w = refl

  pub get-IsIndexed :
      (token : Str) (lifetime : ℕ) (w : World e)
      → IsIndexed lifetime w
      → IsIndexed lifetime (get_refresh_token token w).1
  get-IsIndexed token lifetime w h = record {
    listed = λ t u n le live.
        ground (
          arith,
          owner-get token w n t,
          listed-get token w n u t,
          clock-get token w,
          h.listed t u n,
        );
    bounded =
        λ t u n le live. ground (arith, owner-get token w n t, clock-get token w, h.bounded t u n);
  }

  pub get_exact :
      (token : Str) (w : World e)
      → e.redis.up w.kv ≡ true
      → (get_refresh_token token w).0 ≡ result_of_option (owner w w.clock token) failure
  unfolding get_refresh_token redis_get
  get_exact token w up = ground (arith, e.redis.get_up (refresh_key token) w.clock w.kv up)

  up-get :
      (token : Str) (w : World e)
      → e.redis.up w.kv ≡ true
      → e.redis.up (get_refresh_token token w).1.kv ≡ true
  unfolding get_refresh_token redis_get
  up-get token w up = ground (arith, e.redis.get_up (refresh_key token) w.clock w.kv up)

  up-save :
      (user_id token : Str) (expiration : ℕ) (w : World e)
      → e.redis.up w.kv ≡ true
      → e.redis.up (save_refresh_token user_id token expiration w).1.kv ≡ true
  unfolding save_refresh_token redis_set redis_s_add redis_expire ◌>>=◌
  up-save user_id token expiration w up =
      let first = e.redis.set_up (refresh_key token) user_id expiration w.clock w.kv up in
      let second = e.redis.s_add_up (user_tokens_key user_id) token w.clock _ first.1 in
      let third = e.redis.expire_up (user_tokens_key user_id) expiration w.clock _ second in
      ground arith

  -- While the server answers, a token that was saved is found with its user exactly until its time
  -- has passed.
  pub get-save :
      (user_id token : Str) (expiration d : ℕ) (w : World e)
      → e.redis.up w.kv ≡ true
      → 0 < expiration
      → (save_refresh_token user_id token expiration w).0 ≡ ok tt
      → (get_refresh_token token (elapse d (save_refresh_token user_id token expiration w).1)).0
        ≡ (if ltb d expiration then ok user_id else err failure)
  get-save user_id token expiration d w up pos saved =
      let w' : World e = (save_refresh_token user_id token expiration w).1 in
      ground (
        arith,
        get_exact token (elapse d w') (up-save user_id token expiration w up),
        ==-refl token,
        clock-save expiration user_id token w pos saved,
        owner-save expiration user_id token w pos saved (w.clock + d) token (omega arith),
      )

  delete_any-IsIndexed :
      (token : Str) (lifetime : ℕ) (r : Result Str) (w : World e)
      → IsIndexed lifetime w
      → ((u : Str) → r ≡ ok u → owner w w.clock token ≡ some u)
      → (delete_found token r w).0 ≡ ok tt
      → IsIndexed lifetime (delete_found token r w).1
  unfolding delete_found
  delete_any-IsIndexed token lifetime (err x) w h found deleted = h
  delete_any-IsIndexed token lifetime (ok u) w h found deleted =
      delete_found-IsIndexed token u w deleted lifetime h (found u refl)

  -- A DeleteRefreshToken that succeeds keeps the sets complete.
  pub delete_refresh_token-IsIndexed :
      (token : Str) (lifetime : ℕ) (w : World e)
      → IsIndexed lifetime w
      → (delete_refresh_token token w).0 ≡ ok tt
      → IsIndexed lifetime (delete_refresh_token token w).1
  unfolding delete_refresh_token ◌>>=◌
  delete_refresh_token-IsIndexed token lifetime w h deleted =
      delete_any-IsIndexed token lifetime (get_refresh_token token w).0
        (get_refresh_token token w).1 (get-IsIndexed token lifetime w h)
        (λ u found.
          ground
            (arith, owner-get token w w.clock token, clock-get token w, get-owner token w {u = u}))
        deleted

  owner-delete_any :
      (token : Str) (r : Result Str) (w : World e)
      → (delete_found token r w).0 ≡ ok tt
      → (n : ℕ) (t : Str)
      → owner (delete_found token r w).1 n t
        ≡ elim r [ err x ↦ owner w n t | ok u ↦ if token == t then none else owner w n t ]
  unfolding delete_found
  owner-delete_any token (err x) w deleted n t = refl
  owner-delete_any token (ok u) w deleted n t = owner-delete_found token u w deleted n t

  gone_stays_gone :
      (token : Str) (w : World e) (n : ℕ)
      → w.clock ≤ n
      → owner w w.clock token ≡ none
      → owner w n token ≡ none
  gone_stays_gone token w n le gone = elim (Option-cases (owner w n token)) [
    | inl none_later ↦ none_later
    | inr (v, live) ↦
        cc (gone, e.redis.value_earlier w.kv (refresh_key token) w.clock n {v = v} le live)
  ]

  -- While the server answers, a token that DeleteRefreshToken was given and deleted without an error
  -- has no owner from then on, and every other token keeps its own.
  pub owner-delete :
      (token : Str) (w : World e)
      → e.redis.up w.kv ≡ true
      → (delete_refresh_token token w).0 ≡ ok tt
      → (n : ℕ) (t : Str) → w.clock ≤ n
      → owner (delete_refresh_token token w).1 n t ≡ (if token == t then none else owner w n t)
  unfolding delete_refresh_token ◌>>=◌
  owner-delete token w up deleted n t le =
      let w' : World e = (get_refresh_token token w).1 in
      ground (
        arith,
        eq_iff token t,
        owner-delete_any token (get_refresh_token token w).0 w' deleted n t,
        owner-get token w n t,
        get_exact token w up,
        gone_stays_gone token w n le,
      )

  pub owner-delete_user :
      (user_id : Str) (w : World e)
      → (delete_user_refresh_tokens user_id w).0 ≡ ok tt
      → (n : ℕ) (t : Str)
      → owner (delete_user_refresh_tokens user_id w).1 n t
        ≡ (if is_listed w w.clock user_id t then none else owner w n t)
  unfolding delete_user_refresh_tokens redis_s_members redis_del ◌>>=◌
  owner-delete_user user_id w deleted n t =
      let key = user_tokens_key user_id in
      let w_read : World e = (redis_s_members key w).1 in
      elim (Option-cases (e.redis.s_members key w.clock w.kv).0) [
        | inl failed ↦ ground arith
        | inr (tokens, read) ↦
            let looped : (del_all tokens w_read).0 ≡ ok tt = ground arith in
            ground (
              arith,
              e.redis.s_members_sound key w.clock w.kv t read,
              value-del_all tokens w_read looped t n,
              e.redis.s_members_frame key w.clock w.kv (refresh_key t),
              e.redis.del_frame key (del_all tokens w_read).1.kv (refresh_key t)
                  (user_tokens_key-ne-refresh_key t user_id),
            )
      ]

  -- Where the sets are complete, a DeleteUserRefreshTokens that succeeds revokes every token of the
  -- user: none is a token of the user from then on.
  pub delete_user_revokes :
      (lifetime : ℕ) (user_id : Str) (w : World e)
      → IsIndexed lifetime w
      → (delete_user_refresh_tokens user_id w).0 ≡ ok tt
      → (n : ℕ) (t : Str) → w.clock ≤ n
      → owner (delete_user_refresh_tokens user_id w).1 n t ≢ some user_id
  delete_user_revokes lifetime user_id w h deleted n t le live = ground (
    arith,
    owner-delete_user user_id w deleted n t,
    h.listed t user_id w.clock (omega arith),
    e.redis.value_earlier w.kv (refresh_key t) w.clock n {v = user_id} le,
  )
